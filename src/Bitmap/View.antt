-- ===== src/Bitmap/View.antt =====
-- A bitmap seen from outside: a function from positions to bits.
use course_archive.Prelude.{ℕ, ◌+◌, ◌/◌, ◌%◌, ◌<◌, ◌≡◌, Bool, ◌==◌, length, get_or, arith}
use course_archive.Prelude.Bits.{bit_at}
use course_archive.Bitmap.{Bitmap, elem_bits, size_mod, elem_cnt}

-- No size computation wraps, and the array has the words that the bits need.
pub record IsValid (b : Bitmap) : Type 0 where
  pub small : b.bit_cnt + elem_bits < size_mod
  pub room : length b.bits ≡ elem_cnt b.bit_cnt

abbrev pub digit : Bitmap → ℕ → ℕ
digit b j = bit_at (j % elem_bits) (get_or b.bits (j / elem_bits) 0)

-- The bit numbered `j`.
abbrev pub bit : Bitmap → ℕ → Bool
bit b j = digit b j == 1

-- `b'` is a valid bitmap of the same size that shows the bits `f`.
pub record Shows (b b' : Bitmap) (f : ℕ → Bool) : Type 0 where
  pub valid : IsValid b'
  pub size : b'.bit_cnt ≡ b.bit_cnt
  pub shown : (j : ℕ) → bit b' j ≡ f j

pub word_in : {b : Bitmap} → IsValid b → (i : ℕ) → i < b.bit_cnt → i / elem_bits < length b.bits
word_in v i h = omega arith
