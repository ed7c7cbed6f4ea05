-- ===== src/CString/Compare.antt =====
-- Comparison of strings in string.c.
use mathlib.Core.Path.{subst}
use course_archive.Prelude.{
  ℕ, zero, suc, ◌+◌, ◌≤◌, ◌<◌, ◌≡◌, refl, sym, ◌∙◌, Bool, true, false, not, ◌&&◌, ◌||◌, Option,
  none, some, ◌==◌, ltb, if◌then◌else◌, Returns, Bool-cases, inl, inr, arith, ◌>>◌, assert,
}
use course_archive.CString.{Memory, ℤ, pos, negsuc, address_space}
use course_archive.CString.Search.{First, first, IsString}
use course_archive.CString.Blocks.{Same, further, start}
use course_archive.CString.Token.{zero-end}

-- `*a < *b ? -1 : *a > *b`
abbrev pub sign : ℕ → ℕ → ℤ
sign x y = if ltb x y then negsuc 0 else (if ltb y x then pos 1 else pos 0)

unfoldable pub strcmp_loop : ℕ → Memory → ℕ → ℕ → Option ℤ
strcmp_loop zero mem a b = none
strcmp_loop (suc fuel) mem a b =
    let rest = strcmp_loop fuel mem (a + 1) (b + 1) in
    if not (mem a == 0) && (mem a == mem b) then rest else some (sign (mem a) (mem b))

unfoldable pub strcmp : Memory → ℕ → ℕ → Option ℤ
strcmp mem a b = do assert (not (a == 0)); assert (not (b == 0)); strcmp_loop address_space mem a b

-- What a comparison of two bytes returns.
abbrev pub Signed : ℕ → ℕ → ℤ → Type 0
Signed x y (pos zero) = x ≡ y
Signed x y (pos (suc _)) = y < x
Signed x y (negsuc _) = x < y

sign-Signed : (x y : ℕ) → Signed x y (sign x y)
sign-Signed x y = elim (Bool-cases (ltb x y)) [
  | inl less ↦ rw less (ground arith)
  | inr ge ↦ elim (Bool-cases (ltb y x)) [
    | inl more ↦ rw (ge, more) (ground arith)
    | inr le ↦ rw (ge, le) (ground arith)
  ]
]

-- Whether the comparison of strings stops `i` bytes behind `a` and `b`.
abbrev stops : Memory → ℕ → ℕ → ℕ → Bool
stops mem a b i = (mem (a + i) == 0) || not (mem (a + i) == mem (b + i))

stops-further : (mem : Memory) (a b i : ℕ) → stops mem a b (suc i) ≡ stops mem (a + 1) (b + 1) i
stops-further mem a b i = rw (further mem a i, further mem b i) refl

strcmp_loop-sign :
    (j fuel : ℕ) (mem : Memory) (a b : ℕ)
    → j < fuel
    → ((i : ℕ) → i < j → stops mem a b i ≡ false)
    → stops mem a b j ≡ true
    → strcmp_loop fuel mem a b ≡ some (sign (mem (a + j)) (mem (b + j)))
unfolding strcmp_loop
strcmp_loop-sign j zero mem a b lt before at = absurd (omega arith)
strcmp_loop-sign zero (suc fuel) mem a b lt before at =
    let halt : (not (mem a == 0) && (mem a == mem b)) ≡ false =
      ground (arith, at, start mem a, start mem b) in
    rw (halt, start mem a, start mem b) refl
strcmp_loop-sign (suc j) (suc fuel) mem a b lt before at =
    let on : (not (mem a == 0) && (mem a == mem b)) ≡ true =
      ground (arith, before 0 (omega arith), start mem a, start mem b) in
    rw (on, further mem a j, further mem b j)
      (strcmp_loop-sign j fuel mem (a + 1) (b + 1) (omega arith)
        (λ i l. sym (stops-further mem a b i) ∙ before (suc i) (omega arith))
        (sym (stops-further mem a b j) ∙ at))

strcmp-loop :
    (mem : Memory) (a b : ℕ) (r : ℤ)
    → (a == 0) ≡ false
    → (b == 0) ≡ false
    → strcmp_loop address_space mem a b ≡ some r
    → strcmp mem a b ≡ some r
unfolding strcmp
strcmp-loop mem a b r x y e = rw (x, y, e) refl

-- `strcmp` of a string with what stands at `b` returns a number with the sign of the difference at
-- the first byte in which they differ, and zero only if they agree up to the end of the string,
-- its zero byte included.
pub strcmp-Signed :
    (mem : Memory) (a b n : ℕ)
    → IsString mem a n
    → (b == 0) ≡ false
    → Returns
        (λ r.
          (j : ℕ) × (j ≤ n)
          × Same mem a b j
          × Signed (mem (a + j)) (mem (b + j)) r
          × ((r ≡ pos 0) → j ≡ n))
        (strcmp mem a b)
strcmp-Signed mem a b n str x =
    let f : First (stops mem a b) n = first (stops mem a b) n (ground (arith, str.end)) in
    (
      sign (mem (a + f.index)) (mem (b + f.index)),
      strcmp-loop mem a b _ str.address x (
          strcmp_loop-sign f.index address_space mem a b (omega (arith, f.bound, str.room)) f.before
            f.there),
      (
        f.index,
        f.bound,
        (λ i lt. ground (arith, f.before i lt)),
        sign-Signed (mem (a + f.index)) (mem (b + f.index)),
        λ z. last f.index f.bound f.there z,
      ),
    )
  where
    last :
        (j : ℕ) → j ≤ n → stops mem a b j ≡ true → sign (mem (a + j)) (mem (b + j)) ≡ pos 0 → j ≡ n
    last j le at z =
        let same : mem (a + j) ≡ mem (b + j) =
          subst (Signed (mem (a + j)) (mem (b + j))) z (sign-Signed (mem (a + j)) (mem (b + j))) in
        let end : (mem (a + j) == 0) ≡ true = ground (arith, at, same) in
        ground (arith, zero-end mem a n j str le)
