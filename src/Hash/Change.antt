-- ===== src/Hash/Change.antt =====
-- Adding an element to a table, and taking one out.
use mathlib.Core.Path.{subst}
use course_archive.Prelude.{
  ℕ, ◌≡◌, refl, sym, ◌∙◌, ap, Bool, true, false, not, ◌&&◌, ◌||◌, Option, none, some, List, [], ◌∷◌,
  ◌==◌, Bool-cases, inl, inr, arith,
}
use course_archive.Thread.{remove}
use course_archive.LinkedList.Chain.{has}
use course_archive.Hash.{
  Table, set_bucket, find_bucket, equal, insert_elem, remove_elem, insert_missing, remove_found,
}
use course_archive.Hash.Valid.{
  IsOrder, Unequal, holds, IsValid, bucket_idx-lt, bucket_idx-equal, equal_sym, equal_refl,
  Unequal-same,
}
use course_archive.Hash.Find.{Finds}

abbrev pub is_same : ℕ → Option ℕ → Bool
is_same y none = false
is_same y (some x) = y == x

abbrev pub is_missing : Option ℕ → Bool
is_missing none = true
is_missing (some x) = false

set_bucket-at : (buckets : ℕ → List ℕ) (b : ℕ) (l : List ℕ) → set_bucket buckets b l b ≡ l
set_bucket-at buckets b l = let self : (b == b) ≡ true = ground arith in rw self refl

module _ (hash : ℕ → ℕ) (less : ℕ → ℕ → Bool) (order : IsOrder hash less) where
  -- Taking an element out of a list without equal ones.
  pub has-remove :
      (l : List ℕ) (x y : ℕ) → Unequal hash less l → has y (remove x l) ≡ (has y l && not (y == x))
  has-remove [] x y u = refl
  has-remove (a ∷ l) x y (out, u) = elim (Bool-cases (a == x)) [
    | inl here ↦
        let alone : has a l ≡ false = elim (Bool-cases (has a l)) [
          | inl twice ↦ absurd (ground (arith, out a twice, equal_refl hash less a order))
          | inr once ↦ once
        ] in
        rw here (elim (Bool-cases (y == a)) [
          | inl it ↦
              let same : y ≡ a = ground (arith, it) in
              ap (λ k. has k l) same ∙ alone ∙ ground (arith, here, it)
          | inr other ↦ ground (arith, other, here)
        ])
    | inr later ↦ rw later (ground (arith, has-remove l x y u, later))
  ]

  pub Unequal-remove : (l : List ℕ) (x : ℕ) → Unequal hash less l → Unequal hash less (remove x l)
  Unequal-remove [] x u = tt
  Unequal-remove (a ∷ l) x (out, u) = elim (Bool-cases (a == x)) [
    | inl here ↦ rw here u
    | inr later ↦
        rw later (λ y i. out y (ground (arith, has-remove l x y u, i)), Unequal-remove l x u)
  ]

  -- Elements in different buckets are different.
  by_bucket :
      (h : Table) (y x : ℕ)
      → (find_bucket hash less h y == find_bucket hash less h x) ≡ false
      → (y == x) ≡ false
  by_bucket h y x other = elim (Bool-cases (y == x)) [
    | inl it ↦
        let same : y ≡ x = ground (arith, it) in
        absurd (ground (arith, ap (find_bucket hash less h) same, other))
    | inr ne ↦ ne
  ]

  module _ (h : Table) (v : IsValid hash less h) (e : ℕ) where
    pub insert_elem-holds :
        (y : ℕ)
        → holds hash less (insert_elem hash less h (find_bucket hash less h e) e) y
          ≡ ((y == e) || holds hash less h y)
    insert_elem-holds y =
        elim (Bool-cases (find_bucket hash less h y == find_bucket hash less h e)) [
          | inl here ↦
              let same : find_bucket hash less h y ≡ find_bucket hash less h e =
                ground (arith, here) in
              rw here (ap (λ b. (y == e) || has y (h.buckets b)) (sym same))
          | inr other ↦ rw (other, by_bucket h y e other) refl
        ]

    pub IsValid-insert :
        ((y : ℕ)
          → has y (h.buckets (find_bucket hash less h e)) ≡ true
          → equal hash less y e ≡ false)
        → IsValid hash less (insert_elem hash less h (find_bucket hash less h e) e)
    IsValid-insert apart =
        let b = find_bucket hash less h e in
        record {
          some_buckets = v.some_buckets;
          few_buckets = v.few_buckets;
          counted = omega arith;
          placed = λ i y lt. elim (Bool-cases (i == b)) [
            | inl here ↦ rw here (λ among. elim (Bool-cases (y == e)) [
              | inl it ↦
                  let same : y ≡ e = ground (arith, it) in
                  ap (find_bucket hash less h) same ∙ ground (arith, here)
              | inr old ↦
                  v.placed b y (ground (arith, here, lt)) (ground (arith, among, old))
                  ∙ ground (arith, here)
            ])
            | inr other ↦ rw other (v.placed i y lt)
          ];
          unequal = λ i lt. elim (Bool-cases (i == b)) [
            | inl here ↦ rw here (
              λ y among. equal_sym hash less e y ∙ apart y among,
              v.unequal b (ground (arith, here, lt)),
            )
            | inr other ↦ rw other (v.unequal i lt)
          ];
        }

    remove_elem-holds :
        (y : ℕ)
        → holds hash less (remove_elem hash less h (find_bucket hash less h e) e) y
          ≡ (holds hash less h y && not (y == e))
    remove_elem-holds y =
        elim (Bool-cases (find_bucket hash less h y == find_bucket hash less h e)) [
          | inl here ↦
              let same : find_bucket hash less h y ≡ find_bucket hash less h e =
                ground (arith, here) in
              rw here (
                has-remove (h.buckets (find_bucket hash less h e)) e y (
                  v.unequal _ (bucket_idx-lt hash less h.bucket_cnt e v.some_buckets v.few_buckets))
                ∙ ap (λ b. has y (h.buckets b) && not (y == e)) (sym same))
          | inr other ↦ rw (other, by_bucket h y e other) (ground arith)
        ]

    IsValid-remove : IsValid hash less (remove_elem hash less h (find_bucket hash less h e) e)
    IsValid-remove =
        let b = find_bucket hash less h e in
        record {
          some_buckets = v.some_buckets;
          few_buckets = v.few_buckets;
          counted = omega arith;
          placed = λ i y lt. elim (Bool-cases (i == b)) [
            | inl here ↦ rw here (λ among.
                v.placed b y (ground (arith, here, lt)) (
                  ground (
                    arith,
                    among,
                    has-remove (h.buckets b) e y (v.unequal b (ground (arith, here, lt))),
                  ))
                ∙ ground (arith, here))
            | inr other ↦ rw other (v.placed i y lt)
          ];
          unequal = λ i lt. elim (Bool-cases (i == b)) [
            | inl here ↦
                rw here (Unequal-remove (h.buckets b) e (v.unequal b (ground (arith, here, lt))))
            | inr other ↦ rw other (v.unequal i lt)
          ];
        }

    -- What the calls have done before they rehash.
    pub insert_missing-holds :
        (o : Option ℕ)
        → Finds hash less (λ y. has y (h.buckets (find_bucket hash less h e))) e o
        → let h1 = insert_missing hash less h (find_bucket hash less h e) e o in
          IsValid hash less h1
          × ((y : ℕ) → holds hash less h1 y ≡ ((is_missing o && (y == e)) || holds hash less h y))
    insert_missing-holds none f = (IsValid-insert f, insert_elem-holds)
    insert_missing-holds (some x) f = (v, λ y. refl)

  module _ (h : Table) (v : IsValid hash less h) (e : ℕ) where
    pub remove_found-holds :
        (o : Option ℕ)
        → Finds hash less (λ y. has y (h.buckets (find_bucket hash less h e))) e o
        → let h1 = remove_found hash less h (find_bucket hash less h e) o in
          IsValid hash less h1
          × ((y : ℕ) → holds hash less h1 y ≡ (holds hash less h y && not (is_same y o)))
    remove_found-holds none f = (v, λ y. ground arith)
    remove_found-holds (some x) (i, eq) =
        let place = bucket_idx-equal hash less h.bucket_cnt x e order eq in
        subst
          (λ b.
            let h1 = remove_elem hash less h b x in
            IsValid hash less h1
            × ((y : ℕ) → holds hash less h1 y ≡ (holds hash less h y && not (y == x))))
          place (IsValid-remove h v x, remove_elem-holds h v x)

    -- What is left after an equal element is taken out is not equal.
    pub removed-apart :
        (o : Option ℕ)
        → Finds hash less (λ y. has y (h.buckets (find_bucket hash less h e))) e o
        → let h1 = remove_found hash less h (find_bucket hash less h e) o in
          (y : ℕ)
          → has y (h1.buckets (find_bucket hash less h e)) ≡ true
          → equal hash less y e ≡ false
    removed-apart none f y among = f y among
    removed-apart (some x) (i, eq) y among =
        let b = find_bucket hash less h e in
        let u = v.unequal b (bucket_idx-lt hash less h.bucket_cnt e v.some_buckets v.few_buckets) in
        let left : has y (remove x (h.buckets b)) ≡ true =
          ap (has y) (sym (set_bucket-at h.buckets b (remove x (h.buckets b)))) ∙ among in
        elim (Bool-cases (equal hash less y e)) [
          | inr ne ↦ ne
          | inl eq' ↦
              let eq2 = order.transitive y e x eq' (equal_sym hash less e x ∙ eq) in
              let both =
                Unequal-same hash less (h.buckets b) y x u
                  (ground (arith, left, has-remove (h.buckets b) x y u)) i eq2 in
              absurd (ground (arith, left, has-remove (h.buckets b) x y u, both))
        ]
