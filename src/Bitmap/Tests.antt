-- ===== src/Bitmap/Tests.antt =====
-- Runs of the bitmap on small inputs, and its theorems at one of them.
use course_archive.Prelude.{
  ℕ, ◌≡◌, refl, true, false, not, none, some, List, [], ◌∷◌, length, Returns, arith, ◌>>=◌,
}
use course_archive.Bitmap.{
  Bitmap, elem_cnt, last_mask, mark, set_bit, test, set_multiple, contains, none_set, scan,
  scan_and_flip, scan_loop, contains_loop, set_loop,
}
use course_archive.Bitmap.View.{IsValid, bit, Shows}
use course_archive.Bitmap.Update.{at, set_bit-Shows, test-bit}
use course_archive.Bitmap.Range.{Verdict, none_set-Verdict}
use course_archive.Bitmap.Scan.{Flipped, scan_and_flip-Flipped, scan_and_flip-zero}

-- Bits 0, 2 and 33 of 40.
abbrev two_words : Bitmap
two_words = record { bit_cnt = 40; bits = 5 ∷ 2 ∷ [] }

two_words-IsValid : IsValid two_words
two_words-IsValid = record { small = omega arith; room = refl }

marks : (do b ← mark two_words 38; some b.bits) ≡ some (5 ∷ 66 ∷ [])
unfolding mark
marks = refl

finds : scan two_words 1 30 false ≡ some 3
unfolding scan scan_loop contains contains_loop test
finds = refl

takes : scan_and_flip two_words 0 4 false ≡ some (3, record { bit_cnt = 40; bits = 125 ∷ 2 ∷ [] })
unfolding scan_and_flip scan scan_loop contains contains_loop test set_multiple set_loop set_bit
    mark
takes = refl

out_of_range : test two_words 40 ≡ none
unfolding test
out_of_range = refl

masks : last_mask two_words ≡ 255
unfolding last_mask
masks = refl

set_bit-Shows_example :
    Returns (λ b'. Shows two_words b' (at 33 (λ _. false) two_words)) (set_bit two_words 33 false)
set_bit-Shows_example = set_bit-Shows two_words-IsValid 33 (omega arith) false

test-bit_example : test two_words 33 ≡ some (bit two_words 33)
test-bit_example = test-bit two_words-IsValid 33 (omega arith)

none_set-Verdict_example :
    Returns (λ r. Verdict (bit two_words) 3 20 true (not r)) (none_set two_words 3 20)
none_set-Verdict_example = none_set-Verdict two_words-IsValid 3 20 (omega arith)

scan_and_flip-Flipped_example :
    Returns (Flipped two_words 0 4 false) (scan_and_flip two_words 0 4 false)
scan_and_flip-Flipped_example = scan_and_flip-Flipped two_words-IsValid 0 4 (omega arith) false

scan_and_flip-zero_example :
    Returns
      (λ (r, b'). (r ≡ 7) × ((j : ℕ) → bit b' j ≡ bit two_words j))
      (scan_and_flip two_words 7 0 true)
scan_and_flip-zero_example = scan_and_flip-zero two_words-IsValid 7 (omega arith) true

garbage_length : (words : List ℕ) → some (7 ∷ 8 ∷ []) ≡ some words → length words ≡ elem_cnt 40
garbage_length words e = let same : 7 ∷ 8 ∷ [] ≡ words = cc in rw (← same) refl
