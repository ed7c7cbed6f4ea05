-- ===== src/Hash/Rehash.antt =====
-- `rehash` keeps the elements of a table.
use course_archive.Prelude.{
  ℕ, zero, suc, ◌+◌, ◌-◌, ◌/◌, ◌%◌, ◌^◌, ◌≤◌, ◌<◌, ◌≡◌, refl, sym, ◌∙◌, ap, Bool, true, false, ◌&&◌,
  ◌||◌, List, [], ◌∷◌, ◌==◌, ltb, if◌then◌else◌, Bool-cases, inl, inr, arith, Returns,
}
use course_archive.Prelude.Bits.{bit_and-le}
use course_archive.LinkedList.Chain.{has}
use course_archive.Hash.{
  Table, set_bucket, turn_off_least_1bit, is_power_of_2, power_loop, wanted_buckets, bucket_idx,
  find_bucket, equal, move_loop, rehash_loop, rehash,
}
use course_archive.Hash.Valid.{
  IsOrder, Unequal, holds, IsValid, bucket_idx-lt, bucket_idx-equal, equal_sym,
}

-- The loop ends at a power of 2, not above where it began.
power_loop-some :
    (fuel x : ℕ)
    → x ≤ fuel
    → 1 ≤ x
    → x < 2 ^ 32
    → Returns (λ n. (1 ≤ n) × (n ≤ x) × (is_power_of_2 n ≡ true)) (power_loop fuel x)
unfolding power_loop
power_loop-some zero x le pos small = absurd (omega arith)
power_loop-some (suc fuel) x le pos small = elim (Bool-cases (is_power_of_2 x)) [
  | inl power ↦ rw power (x, refl, (pos, omega arith, power))
  | inr other ↦
      let smaller = bit_and-le x ((x + 2 ^ 32 - 1) % 2 ^ 32) in
      let positive : 1 ≤ turn_off_least_1bit x = ground (arith, other, pos) in
      let (n, e, (a, b, p)) =
        power_loop-some fuel (turn_off_least_1bit x) (omega (arith, smaller, pos, small)) positive
          (omega (arith, smaller, small)) in
      rw other (n, e, (a, omega (arith, b, smaller, pos, small), p))
]

pub wanted_buckets-some :
    (h : Table)
    → h.elem_cnt < 2 ^ 32
    → Returns (λ n. (1 ≤ n) × (n < 2 ^ 32) × (is_power_of_2 n ≡ true)) (wanted_buckets h)
wanted_buckets-some h small =
    let least = if ltb (h.elem_cnt / 2) 4 then 4 else h.elem_cnt / 2 in
    let lo : 1 ≤ least = ground arith in
    let hi : least < 2 ^ 32 = ground (arith, small) in
    let (n, e, (a, b, p)) = power_loop-some least least (omega arith) lo hi in
    (n, e, (a, omega (arith, b, hi), p))

module _ (hash : ℕ → ℕ) (less : ℕ → ℕ → Bool) (order : IsOrder hash less) where
  -- New buckets that hold the elements with `P`, each in its place.
  record Moved (cnt : ℕ) (P : ℕ → Bool) (new : ℕ → List ℕ) : Type 0 where
    members : (y j : ℕ) → has y (new j) ≡ ((bucket_idx hash less cnt y == j) && P y)
    unequal : (j : ℕ) → Unequal hash less (new j)

  Moved-ext :
      (cnt : ℕ) {P Q : ℕ → Bool} {new : ℕ → List ℕ}
      → ((y : ℕ) → P y ≡ Q y)
      → Moved cnt P new
      → Moved cnt Q new
  Moved-ext cnt {P} {Q} same m = record {
    members = λ y j. m.members y j ∙ ap (λ b. (bucket_idx hash less cnt y == j) && b) (same y);
    unequal = m.unequal;
  }

  -- One element.
  Moved-push :
      (cnt e : ℕ) {P : ℕ → Bool} {new : ℕ → List ℕ}
      → Moved cnt P new
      → ((y : ℕ) → P y ≡ true → equal hash less e y ≡ false)
      → let b = bucket_idx hash less cnt e in
        Moved cnt (λ y. (y == e) || P y) (set_bucket new b (e ∷ new b))
  Moved-push cnt e {P} {new} m apart =
      let b = bucket_idx hash less cnt e in
      record {
        members = λ y j. elim (Bool-cases (y == e)) [
          | inl new_one ↦
              let same : y ≡ e = ground (arith, new_one) in
              let place : bucket_idx hash less cnt y ≡ b = ap (bucket_idx hash less cnt) same in
              elim (Bool-cases (j == b)) [
                | inl here ↦ rw (here, new_one) (ground (arith, place, here))
                | inr other ↦ rw (other, new_one) (m.members y j ∙ ground (arith, place, other))
              ]
          | inr old_one ↦ elim (Bool-cases (j == b)) [
            | inl here ↦
                let same : b ≡ j = ground (arith, here) in
                rw (here, old_one) (ap (λ k. has y (new k)) same ∙ m.members y j)
            | inr other ↦ rw (other, old_one) (m.members y j)
          ]
        ];
        unequal = λ j. elim (Bool-cases (j == b)) [
          | inl here ↦ rw here (λ y i. apart y (ground (arith, m.members y b, i)), m.unequal b)
          | inr other ↦ rw other (m.unequal j)
        ];
      }

  -- The elements of one bucket.
  move_loop-Moved :
      (cnt : ℕ) (l : List ℕ) {P : ℕ → Bool} {new : ℕ → List ℕ}
      → Moved cnt P new
      → Unequal hash less l
      → ((x y : ℕ) → has x l ≡ true → P y ≡ true → equal hash less x y ≡ false)
      → Moved cnt (λ y. has y l || P y) (move_loop hash less cnt new l)
  unfolding move_loop
  move_loop-Moved cnt [] m u apart = m
  move_loop-Moved cnt (e ∷ l) {P} {new} m (out, u) apart =
      let b = bucket_idx hash less cnt e in
      Moved-ext cnt (λ y. ground arith)
        (move_loop-Moved cnt l (Moved-push cnt e m (λ y i. apart e y (ground arith) i)) u
          (λ x y i j. elim (Bool-cases (y == e)) [
            | inl new_one ↦
                let same : e ≡ y = ground (arith, new_one) in
                equal_sym hash less x y ∙ ap (λ k. equal hash less k x) (sym same) ∙ out x i
            | inr old_one ↦ apart x y (ground (arith, i)) (ground (arith, old_one, j))
          ]))

  -- The elements of the buckets below `i`.
  abbrev below : Table → ℕ → ℕ → Bool
  below h i y = ltb (find_bucket hash less h y) i && holds hash less h y

  next_bucket :
      (h : Table) (i : ℕ)
      → IsValid hash less h
      → i < h.bucket_cnt
      → (y : ℕ) → (has y (h.buckets i) || below h i y) ≡ below h (suc i) y
  next_bucket h i v lt y = elim (Bool-cases (has y (h.buckets i))) [
    | inl here ↦
        let place = v.placed i y lt here in
        let held : holds hash less h y ≡ true = ap (λ b. has y (h.buckets b)) place ∙ here in
        ground (arith, here, held, place)
    | inr out ↦ elim (Bool-cases (find_bucket hash less h y == i)) [
      | inl at ↦
          let place : find_bucket hash less h y ≡ i = ground (arith, at) in
          let free : holds hash less h y ≡ false = ap (λ b. has y (h.buckets b)) place ∙ out in
          ground (arith, out, free)
      | inr other ↦
          let same : ltb (find_bucket hash less h y) i ≡ ltb (find_bucket hash less h y) (suc i) =
            ground (arith, other) in
          rw out (ap (λ b. b && holds hash less h y) same)
    ]
  ]

  below-apart :
      (h : Table) (i : ℕ)
      → IsValid hash less h
      → i < h.bucket_cnt
      → (x y : ℕ) → has x (h.buckets i) ≡ true
      → below h i y ≡ true
      → equal hash less x y ≡ false
  below-apart h i v lt x y here early = elim (Bool-cases (equal hash less x y)) [
    | inl eq ↦
        let place : find_bucket hash less h y ≡ i =
          sym (bucket_idx-equal hash less h.bucket_cnt x y order eq) ∙ v.placed i x lt here in
        absurd (ground (arith, place, early))
    | inr ne ↦ ne
  ]

  rehash_loop-Moved :
      (h : Table) (cnt : ℕ) (left i : ℕ) {new : ℕ → List ℕ}
      → IsValid hash less h
      → i + left ≡ h.bucket_cnt
      → Moved cnt (below h i) new
      → Moved cnt (holds hash less h) (rehash_loop hash less left cnt h.buckets new i)
  unfolding rehash_loop
  rehash_loop-Moved h cnt zero i v e m =
      Moved-ext cnt
        (λ y.
          ground (arith, e, bucket_idx-lt hash less h.bucket_cnt y v.some_buckets v.few_buckets))
        m
  rehash_loop-Moved h cnt (suc left) i {new} v e m =
      rehash_loop-Moved h cnt left (suc i) v (omega (arith, e)) (
        Moved-ext cnt (next_bucket h i v (omega (arith, e))) (
          move_loop-Moved cnt (h.buckets i) m (v.unequal i (omega (arith, e)))
            (below-apart h i v (omega (arith, e)))))

  -- `rehash` does not panic, keeps the table valid and holds what it held.
  pub rehash-holds :
      (storage : Bool) (h : Table)
      → IsValid hash less h
      → Returns
          (λ h'. IsValid hash less h' × ((y : ℕ) → holds hash less h' y ≡ holds hash less h y))
          (rehash hash less storage h)
  unfolding rehash
  rehash-holds storage h v =
      let (cnt, e, (pos, small, _)) = wanted_buckets-some h v.counted in
      elim (Bool-cases (cnt == h.bucket_cnt)) [
        | inl same ↦ rw (e, same) (h, refl, (v, λ y. refl))
        | inr other ↦ elim (Bool-cases storage) [
          | inr none_left ↦ rw (e, other, none_left) (h, refl, (v, λ y. refl))
          | inl free ↦
              let m =
                rehash_loop-Moved h cnt h.bucket_cnt 0 {new = λ i. []} v (omega arith)
                  (record { members = λ y j. ground arith; unequal = λ j. tt }) in
              rw (e, other, free)
                (
                  _,
                  refl,
                  (
                    record {
                      some_buckets = pos;
                      few_buckets = small;
                      counted = v.counted;
                      placed = λ i y lt here. ground (arith, m.members y i, here);
                      unequal = λ i lt. m.unequal i;
                    },
                    λ y. m.members y (bucket_idx hash less cnt y) ∙ ground arith,
                  ),
                )
        ]
      ]
