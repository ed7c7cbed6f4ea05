-- ===== src/CString/Blocks.antt =====
-- Comparing blocks, and looking for a byte in one.
use course_archive.Prelude.{
  ℕ, zero, suc, ◌+◌, ◌%◌, ◌<◌, ◌≡◌, refl, sym, ◌∙◌, ap, true, false, Option, none, some, ◌==◌, ltb,
  Returns, Bool-cases, inl, inr, arith,
}
use course_archive.CString.{Memory, ℤ, pos, negsuc, compare_loop, memcmp, memchr_loop, memchr}

-- The first `n` bytes at `a` and at `b` are equal.
abbrev pub Same : Memory → ℕ → ℕ → ℕ → Type 0
Same mem a b n = (i : ℕ) → i < n → mem (a + i) ≡ mem (b + i)

-- How a block compares with another: by the first byte in which they differ.
abbrev pub Compared : Memory → ℕ → ℕ → ℕ → ℤ → Type 0
Compared mem a b size (pos zero) = Same mem a b size
Compared mem a b size (pos (suc _)) =
    (j : ℕ) × (j < size) × (mem (b + j) < mem (a + j)) × Same mem a b j
Compared mem a b size (negsuc _) =
    (j : ℕ) × (j < size) × (mem (a + j) < mem (b + j)) × Same mem a b j

-- One byte further.
pub further : (mem : Memory) (a j : ℕ) → mem (a + suc j) ≡ mem ((a + 1) + j)
further mem a j = ap mem (omega arith)

Same-suc :
    (mem : Memory) (a b n : ℕ) → mem a ≡ mem b → Same mem (a + 1) (b + 1) n → Same mem a b (suc n)
Same-suc mem a b n e h zero lt = ap mem (omega arith) ∙ e ∙ ap mem (omega arith)
Same-suc mem a b n e h (suc i) lt = further mem a i ∙ h i (omega arith) ∙ sym (further mem b i)

Compared-suc :
    (mem : Memory) (a b size : ℕ) (r : ℤ)
    → mem a ≡ mem b
    → Compared mem (a + 1) (b + 1) size r
    → Compared mem a b (suc size) r
Compared-suc mem a b size (pos zero) e h = Same-suc mem a b size e h
Compared-suc mem a b size (pos (suc _)) e (j, lt, less, same) = (
  suc j,
  omega arith,
  omega (arith, less, further mem a j, further mem b j),
  Same-suc mem a b j e same,
)
Compared-suc mem a b size (negsuc _) e (j, lt, less, same) = (
  suc j,
  omega arith,
  omega (arith, less, further mem a j, further mem b j),
  Same-suc mem a b j e same,
)

pub start : (mem : Memory) (a : ℕ) → mem (a + 0) ≡ mem a
start mem a = ap mem (omega arith)

compare_loop-Compared :
    (size : ℕ) (mem : Memory) (a b : ℕ) → Compared mem a b size (compare_loop size mem a b)
unfolding compare_loop
compare_loop-Compared zero mem a b = λ i lt. absurd (omega arith)
compare_loop-Compared (suc size) mem a b = elim (Bool-cases (mem a == mem b)) [
  | inl same ↦ rw same (
      Compared-suc mem a b size (compare_loop size mem (a + 1) (b + 1)) (ground arith)
        (compare_loop-Compared size mem (a + 1) (b + 1)))
  | inr differ ↦ elim (Bool-cases (ltb (mem b) (mem a))) [
    | inl more ↦
        rw (differ, more)
          (0, omega arith, ground (arith, start mem a, start mem b), λ i lt. absurd (omega arith))
    | inr less ↦
        rw (differ, less)
          (0, omega arith, ground (arith, start mem a, start mem b), λ i lt. absurd (omega arith))
  ]
]

memcmp-some :
    (mem : Memory) (a b size : ℕ)
    → (a == 0) ≡ false
    → (b == 0) ≡ false
    → memcmp mem a b size ≡ some (compare_loop size mem a b)
unfolding memcmp
memcmp-some mem a b size x y = rw (x, y) refl

-- `memcmp` returns zero exactly on equal blocks, and otherwise a number with the sign of the
-- difference at the first byte in which the blocks differ.
pub memcmp-Compared :
    (mem : Memory) (a b size : ℕ)
    → (a == 0) ≡ false
    → (b == 0) ≡ false
    → Returns (Compared mem a b size) (memcmp mem a b size)
memcmp-Compared mem a b size x y =
    (compare_loop size mem a b, memcmp-some mem a b size x y, compare_loop-Compared size mem a b)

-- What `memchr` returns.
abbrev pub FirstByte : Memory → ℕ → ℕ → ℕ → Option ℕ → Type 0
FirstByte mem a n c none = (i : ℕ) → i < n → (mem (a + i) == c) ≡ false
FirstByte mem a n c (some p) =
    (j : ℕ) × (p ≡ a + j)
    × (j < n)
    × ((mem (a + j) == c) ≡ true)
    × ((i : ℕ) → i < j → (mem (a + i) == c) ≡ false)

FirstByte-before :
    (mem : Memory) (a n c : ℕ)
    → (mem a == c) ≡ false
    → ((i : ℕ) → i < n → (mem ((a + 1) + i) == c) ≡ false)
    → (i : ℕ) → i < suc n
    → (mem (a + i) == c) ≡ false
FirstByte-before mem a n c e h zero lt = ground (arith, start mem a)
FirstByte-before mem a n c e h (suc i) lt = ground (arith, h i (omega arith), further mem a i)

FirstByte-suc :
    (mem : Memory) (a n c : ℕ) (r : Option ℕ)
    → (mem a == c) ≡ false
    → FirstByte mem (a + 1) n c r
    → FirstByte mem a (suc n) c r
FirstByte-suc mem a n c none e h = FirstByte-before mem a n c e h
FirstByte-suc mem a n c (some p) e (j, at, lt, here, before) = (
  suc j,
  omega (arith, at),
  omega (arith, lt),
  ground (arith, here, further mem a j),
  FirstByte-before mem a j c e before,
)

memchr_loop-FirstByte :
    (size : ℕ) (mem : Memory) (a c : ℕ) → FirstByte mem a size c (memchr_loop size mem a c)
unfolding memchr_loop
memchr_loop-FirstByte zero mem a c = λ i lt. absurd (omega arith)
memchr_loop-FirstByte (suc size) mem a c = elim (Bool-cases (mem a == c)) [
  | inl here ↦
      rw here
        (0, omega arith, omega arith, ground (arith, start mem a), λ i lt. absurd (omega arith))
  | inr other ↦ rw other (
      FirstByte-suc mem a size c (memchr_loop size mem (a + 1) c) other
        (memchr_loop-FirstByte size mem (a + 1) c))
]

memchr-some :
    (mem : Memory) (a c size : ℕ)
    → (a == 0) ≡ false
    → memchr mem a c size ≡ some (memchr_loop size mem a (c % 256))
unfolding memchr
memchr-some mem a c size x = rw x refl

-- `memchr` returns the first place of the byte in the block, and a null pointer exactly if it is
-- not there.
pub memchr-FirstByte :
    (mem : Memory) (a c size : ℕ)
    → (a == 0) ≡ false
    → Returns (FirstByte mem a size (c % 256)) (memchr mem a c size)
memchr-FirstByte mem a c size x = (
  memchr_loop size mem a (c % 256),
  memchr-some mem a c size x,
  memchr_loop-FirstByte size mem a (c % 256),
)
