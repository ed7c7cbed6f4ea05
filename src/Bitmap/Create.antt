-- ===== src/Bitmap/Create.antt =====
-- A new bitmap.
use course_archive.Prelude.{
  ℕ, ◌+◌, ◌<◌, ◌≡◌, refl, Bool, true, false, Option, none, some, List, [], ◌==◌, length, Returns,
  arith,
}
use course_archive.Bitmap.{Bitmap, elem_bits, size_mod, elem_cnt, set_all, create}
use course_archive.Bitmap.View.{IsValid, bit}
use course_archive.Bitmap.Range.{set_multiple-Shows}

-- A valid bitmap of the given size with no bit set among the first `bit_cnt`.
pub record IsEmpty (bit_cnt : ℕ) (b : Bitmap) : Type 0 where
  pub valid : IsValid b
  pub size : b.bit_cnt ≡ bit_cnt
  pub clear : (j : ℕ) → j < bit_cnt → bit b j ≡ false

set_all-IsEmpty : {b : Bitmap} → IsValid b → Returns (IsEmpty b.bit_cnt) (set_all b false)
unfolding set_all
set_all-IsEmpty {b} v =
    let (b', e, s) = set_multiple-Shows {b = b} v 0 b.bit_cnt (omega arith) false in
    (b', e, record { valid = s.valid; size = s.size; clear = λ j h. ground (arith, s.shown j) })

-- `none` for a null pointer.
abbrev pub Created : ℕ → Bool → Option (List ℕ) → Option Bitmap → Type 0
Created n header storage none = (header ≡ true) → (storage ≡ none) × (0 < n)
Created n header storage (some b) = (header ≡ true) × IsEmpty n b

-- If the storage for the words has the size that was asked for, `bitmap_create` does not panic: it
-- returns an empty bitmap of `n` bits, whatever the storage held, or, only if an allocation
-- failed, a null pointer.
pub create-Created :
    (n : ℕ) (header : Bool) (storage : Option (List ℕ))
    → n + elem_bits < size_mod
    → ((words : List ℕ) → storage ≡ some words → length words ≡ elem_cnt n)
    → Returns (Created n header storage) (create n header storage)
unfolding create
create-Created n false none h room = (none, refl, λ e. cc)
create-Created n false (some words) h room = (none, refl, λ e. cc)
create-Created n true (some words) h room =
    let (b, e, s) =
      set_all-IsEmpty {b = record { bit_cnt = n; bits = words }}
        (record { small = h; room = room words refl }) in
    (some b, rw e, (refl, s))
create-Created n true none h room = on_null (n == 0) refl
  where
    on_null : (z : Bool) → (n == 0) ≡ z → Returns (Created n true none) (create n true none)
    on_null true e =
        let e' : n ≡ 0 = ground arith in
        let (b, eb, s) =
          set_all-IsEmpty {b = record { bit_cnt = n; bits = [] }}
            (record { small = h; room = rw e' }) in
        (some b, rw (e, eb), (refl, s))
    on_null false e = (none, rw e, λ _. (refl, ground arith))
