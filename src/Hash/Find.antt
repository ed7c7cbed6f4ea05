-- ===== src/Hash/Find.antt =====
-- `hash_find` finds an element that is equal, if the table holds one.
use course_archive.Prelude.{
  ℕ, ◌≡◌, sym, ◌∙◌, ap, Bool, true, false, Option, none, some, List, [], ◌∷◌, ◌==◌, Bool-cases, inl,
  inr, arith,
}
use course_archive.LinkedList.Chain.{has}
use course_archive.Hash.{Table, find_bucket, equal, find_elem, hash_find}
use course_archive.Hash.Valid.{IsOrder, holds, bucket_idx-equal}

module _ (hash : ℕ → ℕ) (less : ℕ → ℕ → Bool) where
  -- An element equal to `e` among those that pass a test, or none.
  abbrev pub Finds : (ℕ → Bool) → ℕ → Option ℕ → Type 0
  Finds P e none = (y : ℕ) → P y ≡ true → equal hash less y e ≡ false
  Finds P e (some x) = (P x ≡ true) × (equal hash less x e ≡ true)

  Finds-later :
      (x : ℕ) (l : List ℕ) (e : ℕ) (o : Option ℕ)
      → equal hash less x e ≡ false
      → Finds (λ y. has y l) e o
      → Finds (λ y. has y (x ∷ l)) e o
  Finds-later x l e none ne f = λ y i. elim (Bool-cases (y == x)) [
    | inl first ↦
        let same : y ≡ x = ground (arith, first) in ap (λ k. equal hash less k e) same ∙ ne
    | inr later ↦ f y (ground (arith, later))
  ]
  Finds-later x l e (some y) ne (i, eq) = (ground (arith, i), eq)

  pub find_elem-Finds : (l : List ℕ) (e : ℕ) → Finds (λ y. has y l) e (find_elem hash less l e)
  unfolding find_elem
  find_elem-Finds [] e = λ y i. absurd (ground arith)
  find_elem-Finds (x ∷ l) e = elim (Bool-cases (equal hash less x e)) [
    | inl here ↦ rw here (ground arith, here)
    | inr later ↦ rw later (Finds-later x l e (find_elem hash less l e) later (find_elem-Finds l e))
  ]

  module _ (order : IsOrder hash less) (h : Table) where
    Finds-table :
        (e : ℕ) (o : Option ℕ)
        → Finds (λ y. has y (h.buckets (find_bucket hash less h e))) e o
        → Finds (holds hash less h) e o
    Finds-table e none f = λ y i. elim (Bool-cases (equal hash less y e)) [
      | inl eq ↦
          let here = bucket_idx-equal hash less h.bucket_cnt y e order eq in
          absurd (ground (arith, f y (ap (λ b. has y (h.buckets b)) (sym here) ∙ i), eq))
      | inr ne ↦ ne
    ]
    Finds-table e (some x) (i, eq) = (
      ap (λ b. has x (h.buckets b)) (bucket_idx-equal hash less h.bucket_cnt x e order eq) ∙ i,
      eq,
    )

    -- `hash_find` returns an element of the table that is equal to `e`, and the null pointer only
    -- where the table has none.
    pub hash_find-Finds : (e : ℕ) → Finds (holds hash less h) e (hash_find hash less h e)
    unfolding hash_find
    hash_find-Finds e =
        let b = find_bucket hash less h e in
        Finds-table e (find_elem hash less (h.buckets b) e) (find_elem-Finds (h.buckets b) e)
