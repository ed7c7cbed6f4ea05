-- ===== src/Hash/Tests.antt =====
-- A table of numbers in which each number is its own hash.
use course_archive.Prelude.{
  List, some, none, false, ℕ, ◌≡◌, refl, true, not, ◌&&◌, ◌||◌, [], ◌∷◌, ◌==◌, ltb, if◌then◌else◌,
  Bool-cases, inl, inr, arith, Returns,
}
use course_archive.Hash.{
  hash_clear, find_elem, Table, hash_bytes, equal, hash_find, hash_insert, hash_replace,
  hash_delete,
}
use course_archive.Hash.Run.{Call, insert, replace, delete, find, run, list_run, run-list_run}
use course_archive.Hash.Valid.{hash_clear-IsValid, IsOrder, IsValid, holds}
use course_archive.Hash.Change.{is_same, is_missing}
use course_archive.Hash.Calls.{hash_insert-holds, hash_replace-holds, hash_delete-holds}

abbrev itself : ℕ → ℕ
itself e = e

numbers : IsOrder itself ltb
unfolding equal
numbers = record {
  irreflexive = λ a. ground arith;
  transitive = λ a b c e e'. ground (arith, e, e');
  same_hash = λ a b e. ground (arith, e);
}

-- 5 in the bucket 1 of 4.
abbrev one : Table
one = record { elem_cnt = 1; bucket_cnt = 4; buckets = λ i. if i == 1 then 5 ∷ [] else [] }

one-IsValid : IsValid itself ltb one
one-IsValid = record {
  some_buckets = omega arith;
  few_buckets = omega arith;
  counted = omega arith;
  placed = λ i e lt. elim (Bool-cases (i == 1)) [
    | inl here ↦
        rw here (λ among. let it : e ≡ 5 = ground (arith, among) in rw it (ground (arith, here)))
    | inr other ↦ rw other (λ among. absurd (ground (arith, among)))
  ];
  unequal = λ i lt. elim (Bool-cases (i == 1)) [
    | inl here ↦ rw here (λ y among. absurd (ground (arith, among)), tt)
    | inr other ↦ rw other tt
  ];
}

hash_insert-holds_example :
    Returns
      (λ (old, h').
        IsValid itself ltb h'
        × (old ≡ hash_find itself ltb one 9)
        × ((y : ℕ)
            → holds itself ltb h' y ≡ ((is_missing old && (y == 9)) || holds itself ltb one y)))
      (hash_insert itself ltb true one 9)
hash_insert-holds_example = hash_insert-holds itself ltb numbers one one-IsValid 9 true

hash_replace-holds_example :
    Returns
      (λ (old, h').
        IsValid itself ltb h'
        × (old ≡ hash_find itself ltb one 5)
        × ((y : ℕ)
            → holds itself ltb h' y
              ≡ ((y == 5) || (holds itself ltb one y && not (is_same y old)))))
      (hash_replace itself ltb true one 5)
hash_replace-holds_example = hash_replace-holds itself ltb numbers one one-IsValid 5 true

hash_delete-holds_example :
    Returns
      (λ (found, h').
        IsValid itself ltb h'
        × (found ≡ hash_find itself ltb one 5)
        × ((y : ℕ) → holds itself ltb h' y ≡ (holds itself ltb one y && not (is_same y found))))
      (hash_delete itself ltb true one 5)
hash_delete-holds_example = hash_delete-holds itself ltb numbers one one-IsValid 5 true

-- The known value for the letter a.
fnv-letter : hash_bytes (97 ∷ []) ≡ 0x050c_5d7e
fnv-letter = refl

abbrev calls : List Call
calls = insert true 5 ∷ insert true 5 ∷ find 9 ∷ replace false 9 ∷ delete false 5 ∷ find 5 ∷ []

abbrev new : Table
new = hash_clear (record { elem_cnt = 0; bucket_cnt = 4; buckets = λ i. [] })

run-list_run_example : run itself ltb new calls ≡ some (list_run itself ltb [] calls)
run-list_run_example = run-list_run itself ltb numbers new [] calls (
    let (v, nothing) =
      hash_clear-IsValid itself ltb (record { elem_cnt = 0; bucket_cnt = 4; buckets = λ i. [] })
        (omega arith) (omega arith) in
    record { valid = v; unequal = tt; same = nothing })

list_answers : list_run itself ltb [] calls ≡ none ∷ some 5 ∷ none ∷ none ∷ some 5 ∷ none ∷ []
unfolding find_elem equal
list_answers = refl
