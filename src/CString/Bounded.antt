-- ===== src/CString/Bounded.antt =====
-- Copying a string into a buffer of a given size.
use mathlib.Core.Path.{subst}
use course_archive.Prelude.{
  ℕ, ◌+◌, ◌-◌, ◌≤◌, ◌<◌, ◌≡◌, refl, false, some, ◌==◌, ltb, if◌then◌else◌, Returns, Bool-cases, ◌⊎◌,
  inl, inr, arith,
}
use course_archive.CString.{Memory, poke, memcpy, strlen, strlcpy}
use course_archive.CString.Copy.{inside, memcpy-Copied}
use course_archive.CString.Search.{IsString, strlen-length}

-- How much of a string of `n` bytes fits.
abbrev pub fits : ℕ → ℕ → ℕ
fits n size = if ltb n (size - 1) then n else size - 1

fits-le : (n size : ℕ) → (fits n size ≤ n) × (fits n size ≤ size - 1)
fits-le n size = (ground arith, ground arith)

strlcpy-none :
    (mem : Memory) (dst src n : ℕ)
    → (dst == 0) ≡ false
    → (src == 0) ≡ false
    → strlen mem src ≡ some n
    → strlcpy mem dst src 0 ≡ some (n, mem)
unfolding strlcpy
strlcpy-none mem dst src n d s len = rw (d, s, len) refl

strlcpy-memcpy :
    (mem mem1 : Memory) (dst src n size p : ℕ)
    → (dst == 0) ≡ false
    → (src == 0) ≡ false
    → (size == 0) ≡ false
    → strlen mem src ≡ some n
    → memcpy mem dst src (fits n size) ≡ some (mem1, p)
    → strlcpy mem dst src size ≡ some (n, poke mem1 (dst + fits n size) 0)
unfolding strlcpy
strlcpy-memcpy mem mem1 dst src n size p d s z len copy = rw (d, s, z, len, copy) refl

-- `strlcpy` of a string of `n` bytes into a buffer that does not overlap it returns `n`, copies as
-- many bytes as fit in `size - 1` and puts a zero byte behind them; no other byte changes, and with
-- `size` 0 none does.
pub strlcpy-fits :
    (mem : Memory) (dst src n size : ℕ)
    → (dst == 0) ≡ false
    → IsString mem src n
    → (dst + size ≤ src) ⊎ (src + n < dst)
    → Returns
        (λ (len, mem').
          (len ≡ n)
          × ((b : ℕ)
              → mem' b ≡ (
                  if size == 0
                  then mem b
                  else (if b == dst + fits n size
                      then 0
                      else (if inside dst (fits n size) b then mem (src + (b - dst)) else mem b)))))
        (strlcpy mem dst src size)
strlcpy-fits mem dst src n size d str apart = elim (Bool-cases (size == 0)) [
  | inl nothing ↦ (
    (n, mem),
    subst (λ (k : ℕ). strlcpy mem dst src k ≡ some (n, mem)) (ground arith)
        (strlcpy-none mem dst src n d str.address (strlen-length mem src n str)),
    (refl, λ b. rw nothing refl),
  )
  | inr room ↦
      let k = fits n size in
      let ((mem1, p), copy, (copied, _)) =
        memcpy-Copied mem dst src k d str.address (clear apart) in
      (
        (n, poke mem1 (dst + k) 0),
        strlcpy-memcpy mem mem1 dst src n size p d str.address room (strlen-length mem src n str)
            copy,
        (refl, λ b. rw (room, copied b) refl),
      )
]
  where
    clear :
        (dst + size ≤ src) ⊎ (src + n < dst) → (dst + fits n size ≤ src) ⊎ (src + fits n size ≤ dst)
    clear (inl le) = inl (omega (arith, (fits-le n size).1))
    clear (inr gt) = inr (omega (arith, (fits-le n size).0))
