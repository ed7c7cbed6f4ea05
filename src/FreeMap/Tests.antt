-- ===== src/FreeMap/Tests.antt =====
-- The free map with a file that takes all that is written, and its theorems at one map.
use course_archive.Prelude.{
  ℕ, zero, suc, ◌+◌, ◌≤◌, ◌≡◌, refl, ◌⊎◌, true, false, none, some, List, [], ◌∷◌, Returns, arith,
}
use course_archive.Prelude.Bits.{bit_at}
use course_archive.Bitmap
use course_archive.Bitmap.{Bitmap, byte_cnt}
use course_archive.Bitmap.View.{IsValid, bit, Shows}
use course_archive.Bitmap.Range.{filled}
use course_archive.Bitmap.Scan.{Group}
use course_archive.FreeMap.{FreeMap, commit, allocate, release}
use course_archive.FreeMap.Allocate.{
  Allocated, allocate-Allocated, allocate-Disjoint, release-Shows, release-none,
}

abbrev file_write_at : List ℕ → List ℕ → ℕ → ℕ → ℕ × List ℕ
file_write_at file words size offset = (size, words)

-- Sectors 0, 1 and 4 of 8 are in use.
abbrev sectors : FreeMap (List ℕ)
sectors = record { bitmap = record { bit_cnt = 8; bits = 19 ∷ [] }; file = some [] }

abbrev with_words : ℕ → List ℕ → FreeMap (List ℕ)
with_words n f = record { bitmap = record { bit_cnt = 8; bits = n ∷ [] }; file = some f }

sectors-IsValid : IsValid sectors.bitmap
sectors-IsValid = record { small = omega arith; room = refl }

first_two : allocate file_write_at sectors 2 ≡ some (some 2, with_words 31 (31 ∷ []))
unfolding allocate commit Bitmap.scan_and_flip Bitmap.scan Bitmap.scan_loop Bitmap.contains
    Bitmap.contains_loop Bitmap.test Bitmap.set_multiple Bitmap.set_loop Bitmap.set_bit Bitmap.mark
first_two = refl

then_three :
    allocate file_write_at (with_words 31 (31 ∷ [])) 3 ≡ some (some 5, with_words 255 (255 ∷ []))
unfolding allocate commit Bitmap.scan_and_flip Bitmap.scan Bitmap.scan_loop Bitmap.contains
    Bitmap.contains_loop Bitmap.test Bitmap.set_multiple Bitmap.set_loop Bitmap.set_bit Bitmap.mark
then_three = refl

allocate-Allocated_example :
    Returns (Allocated file_write_at sectors 2) (allocate file_write_at sectors 2)
allocate-Allocated_example = allocate-Allocated file_write_at sectors 2 sectors-IsValid

allocate-Disjoint_example : (2 + 2 ≤ 5) ⊎ (5 + 3 ≤ 2)
allocate-Disjoint_example =
    allocate-Disjoint file_write_at sectors (with_words 31 (31 ∷ [])) (with_words 255 (255 ∷ [])) 2
      3 2 5 sectors-IsValid first_two then_three (omega arith) (omega arith)

first_used : Group (bit sectors.bitmap) 0 2 true
unfolding bit_at
first_used zero low high = refl
first_used (suc zero) low high = refl
first_used (suc (suc j)) low high = absurd (omega arith)

release-Shows_example :
    Returns
      (λ s'.
        Shows sectors.bitmap s'.bitmap (filled 0 2 false sectors.bitmap)
        × (s'.file ≡ some (file_write_at [] s'.bitmap.bits (byte_cnt s'.bitmap.bit_cnt) 0).1))
      (release file_write_at sectors 0 2)
release-Shows_example =
    release-Shows file_write_at sectors 0 2 [] sectors-IsValid refl (omega arith) first_used

sector_two_free : bit sectors.bitmap 2 ≡ false
unfolding bit_at
sector_two_free = refl

release-none_example : release file_write_at sectors 1 2 ≡ none
release-none_example =
    release-none file_write_at sectors 1 2 2 sectors-IsValid (omega arith) (omega arith)
      (omega arith) sector_two_free
