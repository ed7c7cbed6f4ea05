-- ===== src/Bitmap/Update.antt =====
-- What the operations on one bit do to the bits.
use Prim.Native.Nat.{bit_and}
use native.Mathlib.Nat.{pow-le-pow_right}
use course_archive.Prelude.{
  ℕ, ◌-◌, ◌/◌, ◌%◌, ◌^◌, ◌<◌, ◌≡◌, refl, inl, inr, Bool, true, false, not, some, ◌==◌,
  if◌then◌else◌, length-set, get_elem?-eq-get_or, get_or-set, get_or, set, Returns, lt→ltb,
  Bool-cases, arith,
}
use course_archive.Prelude.Bits.{
  bit_at, bit_at-le-one, bit_at-bit_and, bit_at-bit_or, bit_at-bit_xor, bit_at-pow,
  bit_at_complement, eq_zero_of_bits, ne_zero_of_bit,
}
use course_archive.Bitmap.{Bitmap, elem_idx, bit_mask, modify, mark, reset, flip, set_bit, test}
use course_archive.Bitmap.View.{IsValid, bit, Shows, word_in}

-- The bits of `b`, with that at `i` changed by `c`.
abbrev pub at : ℕ → (Bool → Bool) → Bitmap → ℕ → Bool
at i c b j = if j == i then c (bit b j) else bit b j

module _ {b : Bitmap} (v : IsValid b) (i : ℕ) (h : i < b.bit_cnt) where
  open b use {bit_cnt, bits}

  modify-Shows :
      (f : ℕ → ℕ) (c : Bool → Bool)
      → ((w k : ℕ)
          → k < 32
          → (bit_at k (f w) == 1)
            ≡ (if k == i % 32 then c (bit_at k w == 1) else (bit_at k w == 1)))
      → Returns (λ b'. Shows b b' (at i c b)) (modify b (elem_idx i) f)
  modify-Shows f c law =
      let w = get_or bits (i / 32) 0 in
      (
        record b { bits = set bits (i / 32) (f w) },
        ground (arith, get_elem?-eq-get_or bits (i / 32) 0 (word_in v i h)),
        record {
          valid = record {
            small = v.small;
            room = ground (arith, length-set bits (i / 32) (f w), v.room);
          };
          size = refl;
          shown = λ j.
              ground
                (arith, get_or-set bits (i / 32) (j / 32) (f w) 0 (word_in v i h), law w (j % 32));
        },
      )

  mark-Shows : Returns (λ b'. Shows b b' (at i (λ _. true) b)) (mark b i)
  unfolding mark
  mark-Shows =
      modify-Shows _ (λ _. true)
        λ w k s.
          ground (arith, bit_at-bit_or k w (2 ^ (i % 32)), bit_at-pow k (i % 32), bit_at-le-one k w)

  mask-lt : 2 ^ (i % 32) < 2 ^ 32
  mask-lt =
      omega (arith, pow-le-pow_right {n = 2} (omega arith) {i = i % 32} {j = 31} (omega arith))

  reset-Shows : Returns (λ b'. Shows b b' (at i (λ _. false) b)) (reset b i)
  unfolding reset
  reset-Shows =
      modify-Shows _ (λ _. false)
        λ w k s. ground (
          arith,
          bit_at-bit_and k w (2 ^ 32 - 1 - 2 ^ (i % 32)),
          bit_at_complement k 32 (2 ^ (i % 32)) s mask-lt,
          bit_at-pow k (i % 32),
          bit_at-le-one k w,
        )

  -- `bitmap_flip` turns the bit round.
  pub flip-Shows : Returns (λ b'. Shows b b' (at i not b)) (flip b i)
  unfolding flip
  flip-Shows = modify-Shows _ not λ w k s.
      ground (arith, bit_at-bit_xor k w (2 ^ (i % 32)), bit_at-pow k (i % 32), bit_at-le-one k w)

  -- `bitmap_set` writes its bit and no other.
  pub set_bit-Shows :
      (value : Bool) → Returns (λ b'. Shows b b' (at i (λ _. value) b)) (set_bit b i value)
  unfolding set_bit
  set_bit-Shows true = rw (lt→ltb i bit_cnt h) mark-Shows
  set_bit-Shows false = rw (lt→ltb i bit_cnt h) reset-Shows

  -- The word and the mask of a bit have a digit in common exactly when the bit is set.
  masked : (w : ℕ) → not (bit_and w (bit_mask i) == 0) ≡ (bit_at (i % 32) w == 1)
  masked w = elim (Bool-cases (bit_at (i % 32) w == 1)) [
    | inl on ↦ ground (
      arith,
      ne_zero_of_bit (i % 32) (bit_and w (2 ^ (i % 32))),
      bit_at-bit_and (i % 32) w (2 ^ (i % 32)),
      bit_at-pow (i % 32) (i % 32),
    )
    | inr off ↦
        let m = bit_and w (2 ^ (i % 32)) in
        let clear = λ (k : ℕ). nothing w off k in
        ground (arith, eq_zero_of_bits m m (omega arith) clear)
  ]
    where
      nothing :
          (w : ℕ)
          → (bit_at (i % 32) w == 1) ≡ false
          → (k : ℕ) → bit_at k (bit_and w (2 ^ (i % 32))) ≡ 0
      nothing w off k =
          ground
            (arith, bit_at-bit_and k w (2 ^ (i % 32)), bit_at-pow k (i % 32), bit_at-le-one k w)

  -- `bitmap_test` reads it.
  pub test-bit : test b i ≡ some (bit b i)
  unfolding test
  test-bit =
      ground (
        arith,
        get_elem?-eq-get_or bits (i / 32) 0 (word_in v i h),
        masked (get_or bits (i / 32) 0),
      )
