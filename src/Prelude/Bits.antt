-- ===== src/Prelude/Bits.antt =====
-- Single binary digits of a number, and what the bitwise operations do to them.
use Prim.Native.Nat.{
  ℕ, zero, suc, ◌+◌, ◌-◌, ◌*◌, ◌/◌, ◌%◌, ◌^◌, ◌≤◌, ◌<◌, min, max, bit_and, bit_or, bit_xor, digits,
  bit_and-bitwise, bit_or-bitwise, bit_xor-bitwise, differ,
}
use mathlib.Core.Path.{◌≡◌, refl, ap, ◌∙◌}
use mathlib.Core.Logic.{◌≢◌, inl, inr}
use native.Mathlib.Nat.{pow-suc}
use native.Mathlib.Omega.{arith}
use course_archive.Prelude.Tests.{◌==◌, if◌then◌else◌, Bool-cases}

-- The digit of `w` at position `j`, 0 or 1.
unfoldable pub bit_at : ℕ → ℕ → ℕ
bit_at zero w = w % 2
bit_at (suc j) w = bit_at j (w / 2)

pub bit_at-le-one : (j w : ℕ) → bit_at j w ≤ 1
unfolding bit_at
bit_at-le-one zero w = omega arith
bit_at-le-one (suc j) w = bit_at-le-one j (w / 2)

-- An operation by digits: `f` of the lowest digits, and `z` of the second number when the first has
-- run out, which agrees with `f` there.
module _ (op : ℕ → ℕ → ℕ) (z : ℕ → ℕ) (f : ℕ → ℕ → ℕ)
    (meaning : (x y : ℕ) → op x y ≡ digits z f x x y)
    (ends : (y : ℕ) → z y ≡ z (y / 2) * 2 + f 0 (y % 2))
    (small : (u v : ℕ) → u ≤ 1 → v ≤ 1 → f u v ≤ 1) where
  -- One digit to go more than needed makes no difference,
  digits_spare : (x y n : ℕ) → x ≤ n → digits z f (suc n) x y ≡ digits z f n x y
  digits_spare x y zero le = let none_left : x ≡ 0 = omega arith in rw none_left refl
  digits_spare zero y (suc n) le = refl
  digits_spare (suc x) y (suc n) le =
      omega (arith, digits_spare (suc x / 2) (y / 2) n (omega arith))

  -- nor do any number of them.
  digits_enough : (x y n m : ℕ) → x ≤ n → n ≤ m → digits z f m x y ≡ digits z f n x y
  digits_enough x y n zero le up = let e : n ≡ 0 = omega arith in rw e refl
  digits_enough x y n (suc m) le up = elim (Bool-cases (n == suc m)) [
    | inl e ↦ let same : n ≡ suc m = ground arith in rw same refl
    | inr e ↦ digits_spare x y m (ground arith) ∙ digits_enough x y n m le (ground arith)
  ]

  lowest_digit : (x y : ℕ) → op x y ≡ op (x / 2) (y / 2) * 2 + f (x % 2) (y % 2)
  lowest_digit zero y = omega (arith, meaning 0 y, meaning 0 (y / 2), ends y)
  lowest_digit (suc x) y =
      let h = suc x / 2 in
      omega (
        arith,
        meaning (suc x) y,
        meaning h (y / 2),
        digits_enough h (y / 2) h x (omega arith) (omega arith),
      )

  any_digit : (j x y : ℕ) → bit_at j (op x y) ≡ f (bit_at j x) (bit_at j y)
  unfolding bit_at
  any_digit zero x y =
      omega (arith, lowest_digit x y, small (x % 2) (y % 2) (omega arith) (omega arith))
  any_digit (suc j) x y =
      let rest : op x y / 2 ≡ op (x / 2) (y / 2) =
        omega (arith, lowest_digit x y, small (x % 2) (y % 2) (omega arith) (omega arith)) in
      rw rest (any_digit j (x / 2) (y / 2))

differ-le-one : (u v : ℕ) → u ≤ 1 → v ≤ 1 → differ u v ≤ 1
differ-le-one zero v p q = q
differ-le-one (suc u) zero p q = p
differ-le-one (suc u) (suc v) p q = differ-le-one u v (omega arith) (omega arith)

pub bit_at-bit_and : (j a b : ℕ) → bit_at j (bit_and a b) ≡ min (bit_at j a) (bit_at j b)
bit_at-bit_and =
    any_digit bit_and (λ _. zero) min bit_and-bitwise (λ y. omega arith) (λ u v p q. omega arith)

pub bit_at-bit_or : (j a b : ℕ) → bit_at j (bit_or a b) ≡ max (bit_at j a) (bit_at j b)
bit_at-bit_or =
    any_digit bit_or (λ y. y) max bit_or-bitwise (λ y. omega arith) (λ u v p q. omega arith)

pub bit_at-bit_xor : (j a b : ℕ) → bit_at j (bit_xor a b) ≡ differ (bit_at j a) (bit_at j b)
bit_at-bit_xor = any_digit bit_xor (λ y. y) differ bit_xor-bitwise (λ y. omega arith) differ-le-one

-- The digits of zero, of a power of two, and of a complement in `w` digits.
pub bit_at-zero : (j : ℕ) → bit_at j 0 ≡ 0
unfolding bit_at
bit_at-zero zero = refl
bit_at-zero (suc j) = bit_at-zero j

pub bit_at-pow : (j k : ℕ) → bit_at j (2 ^ k) ≡ (if j == k then 1 else 0)
unfolding bit_at
bit_at-pow zero zero = refl
bit_at-pow zero (suc k) = ground (arith, pow-suc 2 k)
bit_at-pow (suc j) zero = ground (arith, bit_at-zero j)
bit_at-pow (suc j) (suc k) =
    let half : 2 ^ suc k / 2 ≡ 2 ^ k = omega (arith, pow-suc 2 k) in
    rw half (ground (arith, bit_at-pow j k))

pub bit_at_complement : (j w m : ℕ) → j < w → m < 2 ^ w → bit_at j (2 ^ w - 1 - m) ≡ 1 - bit_at j m
unfolding bit_at
bit_at_complement j zero m h k = absurd (omega arith)
bit_at_complement zero (suc w) m h k = omega (arith, pow-suc 2 w)
bit_at_complement (suc j) (suc w) m h k =
    let half : (2 ^ suc w - 1 - m) / 2 ≡ 2 ^ w - 1 - m / 2 = omega (arith, pow-suc 2 w) in
    rw half (bit_at_complement j w (m / 2) (omega arith) (omega (arith, pow-suc 2 w)))

-- A number is zero exactly when all its digits are.
pub eq_zero_of_bits : (n w : ℕ) → w ≤ n → ((j : ℕ) → bit_at j w ≡ 0) → w ≡ 0
unfolding bit_at
eq_zero_of_bits zero w h all = omega arith
eq_zero_of_bits (suc n) w h all =
    omega (arith, all 0, eq_zero_of_bits n (w / 2) (omega arith) (λ j. all (suc j)))

pub ne_zero_of_bit : (j w : ℕ) → bit_at j w ≡ 1 → w ≢ 0
ne_zero_of_bit j w h e = omega (arith, bit_at-zero j, ap (bit_at j) e)

digits-le : (n x y : ℕ) → digits (λ _. zero) min n x y ≤ y
digits-le zero x y = omega arith
digits-le (suc n) zero y = omega arith
digits-le (suc n) (suc x) y = omega (arith, digits-le n (suc x / 2) (y / 2))

pub bit_and-le : (a b : ℕ) → bit_and a b ≤ b
bit_and-le a b = omega (arith, bit_and-bitwise a b, digits-le a a b)
