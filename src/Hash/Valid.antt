-- ===== src/Hash/Valid.antt =====
-- What a hash table holds, and what makes it one.
use Prim.Native.Nat.{bit_and}
use course_archive.Prelude.{
  ℕ, ◌+◌, ◌-◌, ◌%◌, ◌^◌, ◌≤◌, ◌<◌, ◌≡◌, refl, ap, Bool, true, false, List, [], ◌∷◌, ◌==◌,
  Bool-cases, inl, inr, arith, lt→ltb,
}
use course_archive.Prelude.Bits.{bit_and-le}
use course_archive.LinkedList.Chain.{has}
use course_archive.Hash.{hash_clear, Table, bucket_idx, find_bucket, equal}

module _ (hash : ℕ → ℕ) (less : ℕ → ℕ → Bool) where
  -- What the comparison and the hash function have to do.
  pub record IsOrder : Type 0 where
    pub irreflexive : (a : ℕ) → less a a ≡ false
    pub transitive :
        (a b c : ℕ)
        → equal hash less a b ≡ true
        → equal hash less b c ≡ true
        → equal hash less a c ≡ true
    pub same_hash : (a b : ℕ) → equal hash less a b ≡ true → hash a ≡ hash b

  -- No two elements are equal.
  abbrev pub Unequal : List ℕ → Type 0
  Unequal [] = Unit
  Unequal (x ∷ l) = ((y : ℕ) → has y l ≡ true → equal hash less x y ≡ false) × Unequal l

  -- An element of the table stands in its bucket.
  abbrev pub holds : Table → ℕ → Bool
  holds h e = has e (h.buckets (find_bucket hash less h e))

  pub record IsValid (h : Table) : Type 0 where
    pub some_buckets : 1 ≤ h.bucket_cnt
    pub few_buckets : h.bucket_cnt < 2 ^ 32
    pub counted : h.elem_cnt < 2 ^ 32
    pub placed :
        (i e : ℕ) → i < h.bucket_cnt → has e (h.buckets i) ≡ true → find_bucket hash less h e ≡ i
    pub unequal : (i : ℕ) → i < h.bucket_cnt → Unequal (h.buckets i)

  -- The bucket of an element is in the array.
  pub bucket_idx-lt : (cnt e : ℕ) → 1 ≤ cnt → cnt < 2 ^ 32 → bucket_idx hash less cnt e < cnt
  bucket_idx-lt cnt e lo hi = omega (arith, bit_and-le (hash e) ((cnt + 2 ^ 32 - 1) % 2 ^ 32))

  pub bucket_idx-equal :
      (cnt a b : ℕ)
      → IsOrder
      → equal hash less a b ≡ true
      → bucket_idx hash less cnt a ≡ bucket_idx hash less cnt b
  bucket_idx-equal cnt a b o e =
      ap (λ v. bit_and v ((cnt + 2 ^ 32 - 1) % 2 ^ 32)) (o.same_hash a b e)

  pub equal_sym : (a b : ℕ) → equal hash less a b ≡ equal hash less b a
  unfolding equal
  equal_sym a b = ground arith

  pub equal_refl : (a : ℕ) → IsOrder → equal hash less a a ≡ true
  unfolding equal
  equal_refl a o = rw (o.irreflexive a) refl

  -- Two elements of a list without equal ones.
  pub Unequal-same :
      (l : List ℕ) (a b : ℕ)
      → Unequal l
      → has a l ≡ true
      → has b l ≡ true
      → equal hash less a b ≡ true
      → (a == b) ≡ true
  Unequal-same [] a b u i j e = absurd (ground arith)
  Unequal-same (x ∷ l) a b (out, u) i j e = elim (Bool-cases (a == x)) [
    | inl first ↦ elim (Bool-cases (b == x)) [
      | inl also ↦ ground (arith, first, also)
      | inr other ↦
          let same : a ≡ x = ground (arith, first) in
          absurd (
            ground (arith, out b (ground (arith, other, j)), ap (λ k. equal hash less k b) same, e))
    ]
    | inr later ↦ elim (Bool-cases (b == x)) [
      | inl first ↦
          let same : b ≡ x = ground (arith, first) in
          absurd (
            ground (
              arith,
              out a (ground (arith, later, i)),
              ap (λ k. equal hash less a k) same,
              equal_sym a x,
              e,
            ))
      | inr other ↦ Unequal-same l a b u (ground (arith, later, i)) (ground (arith, other, j)) e
    ]
  ]

  -- A table that is cleared is valid and holds nothing, as is a new one.
  pub hash_clear-IsValid :
      (h : Table)
      → 1 ≤ h.bucket_cnt
      → h.bucket_cnt < 2 ^ 32
      → IsValid (hash_clear h) × ((y : ℕ) → holds (hash_clear h) y ≡ false)
  hash_clear-IsValid h some_buckets few = (
    record {
      some_buckets = some_buckets;
      few_buckets = few;
      counted = omega arith;
      placed = λ i e lt. rw (lt→ltb i h.bucket_cnt lt) (λ among. absurd (ground (arith, among)));
      unequal = λ i lt. rw (lt→ltb i h.bucket_cnt lt) tt;
    },
    λ y.
        rw
          (lt→ltb (bucket_idx hash less h.bucket_cnt y) h.bucket_cnt
            (bucket_idx-lt h.bucket_cnt y some_buckets few))
          refl,
  )
