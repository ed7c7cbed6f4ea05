-- ===== src/Bitmap/Range.antt =====
-- What the operations on a range of bits do.
use course_archive.Prelude.{
  ℕ, zero, suc, ◌+◌, ◌%◌, ◌≤◌, ◌<◌, ◌≡◌, refl, ◌∙◌, Bool, true, false, not, ◌&&◌, some, ◌==◌, ltb,
  leb, if◌then◌else◌, Returns, Bool-cases, arith, inl, inr,
}
use course_archive.Bitmap.{
  Bitmap, size_mod, set_loop, set_multiple, same, count_loop, count, contains_loop, contains,
  none_set, all,
}
use course_archive.Bitmap.View.{IsValid, bit, Shows}
use course_archive.Bitmap.Update.{set_bit-Shows, test-bit}

-- `start ≤ j < start + cnt`
abbrev pub within : ℕ → ℕ → ℕ → Bool
within start cnt j = leb start j && ltb j (start + cnt)

-- The bits of `b`, with those of a range set to `value`.
abbrev pub filled : ℕ → ℕ → Bool → Bitmap → ℕ → Bool
filled start cnt value b j = if within start cnt j then value else bit b j

set_loop-Shows :
    (n i start : ℕ) (value : Bool) {b : Bitmap}
    → IsValid b
    → start + i + n ≤ b.bit_cnt
    → Returns (λ b'. Shows b b' (filled (start + i) n value b)) (set_loop n i b start value)
unfolding set_loop
set_loop-Shows zero i start value {b} v h =
    (b, refl, record { valid = v; size = refl; shown = λ j. ground arith })
set_loop-Shows (suc n) i start value {b} v h =
    let (b1, e1, s1) =
      set_bit-Shows {b = b} v ((start + i) % size_mod) (omega (arith, v.small)) value in
    let (b2, e2, s2) =
      set_loop-Shows n (i + 1) start value {b = b1} s1.valid (omega (arith, s1.size)) in
    (
      b2,
      rw e1 e2,
      record {
        valid = s2.valid;
        size = s2.size ∙ s1.size;
        shown = λ j. ground (arith, s2.shown j, s1.shown j, v.small);
      },
    )

assert_range_lem :
    {b : Bitmap} (start cnt : ℕ)
    → IsValid b
    → start + cnt ≤ b.bit_cnt
    → (leb start b.bit_cnt ≡ true) × (leb ((start + cnt) % size_mod) b.bit_cnt ≡ true)
assert_range_lem start cnt v h = ground (arith, v.small)

module _ {b : Bitmap} (v : IsValid b) (start cnt : ℕ) (h : start + cnt ≤ b.bit_cnt) where
  -- On a range inside the bitmap `bitmap_set_multiple` does not panic, writes the bits of the
  -- range, and no other.
  pub set_multiple-Shows :
      (value : Bool)
      → Returns (λ b'. Shows b b' (filled start cnt value b)) (set_multiple b start cnt value)
  unfolding set_multiple
  set_multiple-Shows value =
      let (b', e, s) = set_loop-Shows cnt 0 start value {b = b} v (omega arith) in
      let ok = assert_range_lem start cnt v h in
      (
        b',
        rw (ok.0, ok.1) e,
        record { valid = s.valid; size = s.size; shown = λ j. ground (arith, s.shown j) },
      )

-- The number of bits of a range that equal `value`.
unfoldable pub occurrences : (ℕ → Bool) → ℕ → ℕ → Bool → ℕ
occurrences f start zero value = 0
occurrences f start (suc n) value =
    (if same (f start) value then 1 else 0) + occurrences f (start + 1) n value

count_loop-occurrences :
    (n i acc start : ℕ) (value : Bool) {b : Bitmap}
    → IsValid b
    → start + i + n ≤ b.bit_cnt
    → count_loop n i acc b start value ≡ some (acc + occurrences (bit b) (start + i) n value)
unfolding count_loop occurrences
count_loop-occurrences zero i acc start value v h = ground arith
count_loop-occurrences (suc n) i acc start value {b} v h =
    let e : (start + i) % size_mod ≡ start + i = omega (arith, v.small) in
    let e' : start + (i + 1) ≡ start + i + 1 = omega arith in
    let rest =
      count_loop-occurrences n (i + 1) (if same (bit b (start + i)) value then acc + 1 else acc)
        start value {b = b} v (omega arith) in
    rw (e, test-bit v (start + i) (omega arith)) (ground (arith, rest, e'))

-- What a search of a range for `value` says, and the evidence.
abbrev pub Verdict : (ℕ → Bool) → ℕ → ℕ → Bool → Bool → Type 0
Verdict f start cnt value true = (j : ℕ) × (start ≤ j) × (j < start + cnt) × (f j ≡ value)
Verdict f start cnt value false = (j : ℕ) → start ≤ j → j < start + cnt → f j ≡ not value

same-eq : (t value : Bool) → same t value ≡ true → t ≡ value
same-eq true value h = ground arith
same-eq false value h = ground arith

same-ne : (t value : Bool) → same t value ≡ false → t ≡ not value
same-ne true value h = ground arith
same-ne false value h = ground arith

Verdict-suc :
    (f : ℕ → Bool) (start n : ℕ) (value : Bool) (r : Bool)
    → f start ≡ not value
    → Verdict f (start + 1) n value r
    → Verdict f start (suc n) value r
Verdict-suc f start n value true off (j, low, high, e) = (j, omega arith, omega arith, e)
Verdict-suc f start n value false off all_off = λ j low high. elim (Bool-cases (j == start)) [
  | inl e ↦ let e' : j ≡ start = ground arith in rw e' off
  | inr e ↦ all_off j (ground arith) (omega arith)
]

contains_loop-Verdict :
    (n i start : ℕ) (value : Bool) {b : Bitmap}
    → IsValid b
    → start + i + n ≤ b.bit_cnt
    → Returns (Verdict (bit b) (start + i) n value) (contains_loop n i b start value)
unfolding contains_loop
contains_loop-Verdict zero i start value v h = (false, refl, λ j low high. absurd (omega arith))
contains_loop-Verdict (suc n) i start value {b} v h =
    let e : (start + i) % size_mod ≡ start + i = omega (arith, v.small) in
    let e' : start + (i + 1) ≡ start + i + 1 = omega arith in
    rw (e, test-bit v (start + i) (omega arith))
      (elim (Bool-cases (same (bit b (start + i)) value)) [
        | inl hit ↦ rw hit (true, refl, (start + i, omega arith, omega arith, same-eq _ _ hit))
        | inr miss ↦
            let (r, er, w) = contains_loop-Verdict n (i + 1) start value {b = b} v (omega arith) in
            rw miss
              (r, er, Verdict-suc (bit b) (start + i) n value r (same-ne _ _ miss) (rw e' at w))
      ])

module _ {b : Bitmap} (v : IsValid b) (start cnt : ℕ) (h : start + cnt ≤ b.bit_cnt) where
  -- `bitmap_count` returns the number of bits of the range that equal `value`.
  pub count-occurrences :
      (value : Bool) → count b start cnt value ≡ some (occurrences (bit b) start cnt value)
  unfolding count
  count-occurrences value =
      let ok = assert_range_lem start cnt v h in
      let e : start + 0 ≡ start = omega arith in
      let run = count_loop-occurrences cnt 0 0 start value {b = b} v (omega arith) in
      rw (ok.0, ok.1) (ground (arith, run, e))

  -- `bitmap_contains` says whether a bit of the range equals `value`.
  pub contains-Verdict :
      (value : Bool) → Returns (Verdict (bit b) start cnt value) (contains b start cnt value)
  unfolding contains
  contains-Verdict value =
      let ok = assert_range_lem start cnt v h in
      let e : start + 0 ≡ start = omega arith in
      rw (ok.0, ok.1) (rw e at (contains_loop-Verdict cnt 0 start value v (omega arith)))

  -- `bitmap_all` returns true exactly if every bit of the range is set, and otherwise there is
  -- one that is not.
  pub all-Verdict : Returns (λ r. Verdict (bit b) start cnt false (not r)) (all b start cnt)
  unfolding all
  all-Verdict =
      let (r, e, w) = contains-Verdict false in
      (not r, rw e, let e' : not (not r) ≡ r = ground arith in rw e' w)

  -- `bitmap_none` returns true exactly if no bit of the range is set.
  pub none_set-Verdict :
      Returns (λ r. Verdict (bit b) start cnt true (not r)) (none_set b start cnt)
  unfolding none_set
  none_set-Verdict =
      let (r, e, w) = contains-Verdict true in
      (not r, rw e, let e' : not (not r) ≡ r = ground arith in rw e' w)
