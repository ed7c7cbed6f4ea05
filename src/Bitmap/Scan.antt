-- ===== src/Bitmap/Scan.antt =====
-- The search for a group of equal bits, and its use as an allocator.
use course_archive.Prelude.{
  ℕ, zero, suc, ◌+◌, ◌-◌, ◌≤◌, ◌<◌, ◌≡◌, refl, sym, ◌≢◌, ◌⊎◌, inl, inr, ◌∙◌, Bool, true, false, not,
  ◌==◌, leb, if◌then◌else◌, Returns, Bool-cases, some, arith, ◌>>=◌,
}
use course_archive.Bitmap.{Bitmap, bitmap_error, scan_loop, scan, set_multiple, scan_and_flip}
use course_archive.Bitmap.View.{IsValid, bit, Shows}
use course_archive.Bitmap.Range.{filled, set_multiple-Shows, Verdict, contains-Verdict}

-- `cnt` bits from `k` on are all `value`.
abbrev pub Group : (ℕ → Bool) → ℕ → ℕ → Bool → Type 0
Group f k cnt value = (j : ℕ) → k ≤ j → j < k + cnt → f j ≡ value

-- `r` is the first group at or after `start` in `total` bits.
pub record IsFirst (f : ℕ → Bool) (total start cnt : ℕ) (value : Bool) (r : ℕ) : Type 0 where
  pub after : start ≤ r
  pub inside : r + cnt ≤ total
  pub group : Group f r cnt value
  pub first : (k : ℕ) → start ≤ k → k < r → ¬ Group f k cnt value

abbrev pub NoGroup : (ℕ → Bool) → ℕ → ℕ → ℕ → Bool → Type 0
NoGroup f total start cnt value = (k : ℕ) → start ≤ k → k + cnt ≤ total → ¬ Group f k cnt value

abbrev pub Scanned : (ℕ → Bool) → ℕ → ℕ → ℕ → Bool → ℕ → Type 0
Scanned f total start cnt value r =
    IsFirst f total start cnt value r ⊎ ((r ≡ bitmap_error) × NoGroup f total start cnt value)

not-ne : (x : Bool) → x ≢ not x
not-ne true e = cc
not-ne false e = cc

not-not : (x : Bool) → not (not x) ≡ x
not-not x = ground arith

-- One round: what the test at `i` and the search from `i + 1` say of the search from `i`.
Scanned-suc :
    (f : ℕ → Bool) (total i cnt : ℕ) (value : Bool) (r : ℕ)
    → ¬ Group f i cnt value
    → Scanned f total (i + 1) cnt value r
    → Scanned f total i cnt value r
Scanned-suc f total i cnt value r bad (inl s) = inl (record {
  after = omega (arith, s.after);
  inside = s.inside;
  group = s.group;
  first = λ k low high. elim (Bool-cases (k == i)) [
    | inl e ↦ let e' : k ≡ i = ground arith in rw e' bad
    | inr e ↦ s.first k (ground arith) high
  ];
})
Scanned-suc f total i cnt value r bad (inr (e, none)) = inr (
  e,
  λ k low high. elim (Bool-cases (k == i)) [
    | inl same ↦ let e' : k ≡ i = ground arith in rw e' bad
    | inr differ ↦ none k (ground arith) high
  ],
)

scan_loop-Scanned :
    (n i cnt : ℕ) (value : Bool) {b : Bitmap}
    → IsValid b
    → cnt ≤ b.bit_cnt
    → i + n ≡ b.bit_cnt - cnt + 1
    → Returns (Scanned (bit b) b.bit_cnt i cnt value) (scan_loop n i b cnt value)
unfolding scan_loop
scan_loop-Scanned zero i cnt value v h e =
    (bitmap_error, refl, inr (refl, λ k low high. absurd (omega arith)))
scan_loop-Scanned (suc n) i cnt value {b} v h e =
    let (hit, eh, w) = contains-Verdict {b = b} v i cnt (omega arith) (not value) in
    rw eh (
      branch hit w
        (λ (_ : Unit {0}). scan_loop-Scanned n (i + 1) cnt value {b = b} v h (omega arith)))
  where
    branch :
        (hit : Bool)
        → Verdict (bit b) i cnt (not value) hit
        → (Unit {0}
            → Returns
                (Scanned (bit b) b.bit_cnt (i + 1) cnt value)
                (scan_loop n (i + 1) b cnt value))
        → Returns
            (Scanned (bit b) b.bit_cnt i cnt value)
            (let rest = scan_loop n (i + 1) b cnt value in if hit then rest else some i)
    branch true (j, low, high, off) rec =
        let (r, er, s) = rec tt in
        (
          r,
          er,
          Scanned-suc (bit b) b.bit_cnt i cnt value r (λ g. not-ne value (sym (g j low high) ∙ off))
              s,
        )
    branch false on rec = (
      i,
      refl,
      inl (record {
        after = omega arith;
        inside = omega arith;
        group = λ j low high. on j low high ∙ not-not value;
        first = λ k low high. absurd (omega arith);
      }),
    )

module _ {b : Bitmap} (v : IsValid b) (start cnt : ℕ) (h : start ≤ b.bit_cnt) (value : Bool) where
  -- `bitmap_scan` returns the first group of `cnt` bits at or after `start` that all equal
  -- `value`, or BITMAP_ERROR if there is none.
  pub scan-Scanned : Returns (Scanned (bit b) b.bit_cnt start cnt value) (scan b start cnt value)
  unfolding scan scan_loop
  scan-Scanned = elim (Bool-cases (leb cnt b.bit_cnt)) [
    | inl fits ↦
        let ok : leb start b.bit_cnt ≡ true = ground arith in
        rw (ok, fits) (search_it (ground arith))
    | inr big ↦
        let ok : leb start b.bit_cnt ≡ true = ground arith in
        rw (ok, big) (bitmap_error, refl, inr (refl, λ k low high. absurd (ground arith)))
  ]
    where
      search_it :
          cnt ≤ b.bit_cnt
          → Returns
              (Scanned (bit b) b.bit_cnt start cnt value)
              (scan_loop (b.bit_cnt - cnt + 1 - start) start b cnt value)
      search_it fits = elim (Bool-cases (leb start (b.bit_cnt - cnt + 1))) [
        | inl in_range ↦ scan_loop-Scanned _ start cnt value v fits (ground arith)
        | inr past ↦
            let none_left : b.bit_cnt - cnt + 1 - start ≡ 0 = ground arith in
            rw (none_left, scan_loop)
              (bitmap_error, refl, inr (refl, λ k low high. absurd (ground arith)))
      ]

-- What `bitmap_scan_and_flip` returns and leaves behind.
abbrev pub Flipped : Bitmap → ℕ → ℕ → Bool → ℕ × Bitmap → Type 0
Flipped b start cnt value (r, b') =
    (IsFirst (bit b) b.bit_cnt start cnt value r × Shows b b' (filled r cnt (not value) b))
    ⊎ ((r ≡ bitmap_error) × (b' ≡ b) × NoGroup (bit b) b.bit_cnt start cnt value)

module _ {b : Bitmap} (v : IsValid b) (start cnt : ℕ) (h : start ≤ b.bit_cnt) (value : Bool) where
  -- At or after `start`, `bitmap_scan_and_flip` finds the first group of `cnt` bits that all equal
  -- `value`, turns exactly these round and returns where the group begins; if there is none, it
  -- returns BITMAP_ERROR and leaves the bitmap alone.
  pub scan_and_flip-Flipped : Returns (Flipped b start cnt value) (scan_and_flip b start cnt value)
  unfolding scan_and_flip
  scan_and_flip-Flipped = let (r, e, s) = scan-Scanned v start cnt h value in rw e (finish r s)
    where
      finish :
          (r : ℕ)
          → Scanned (bit b) b.bit_cnt start cnt value r
          → Returns (Flipped b start cnt value) (
              if r == bitmap_error
              then some (r, b)
              else (do b' ← set_multiple b r cnt (not value); some (r, b')))
      finish r (inl s) =
          let (b', e, shows) = set_multiple-Shows {b = b} v r cnt s.inside (not value) in
          let ne : (r == bitmap_error) ≡ false = ground (arith, s.inside, v.small) in
          rw (ne, e) ((r, b'), refl, inl (s, shows))
      finish r (inr (e, none)) =
          let eq : (r == bitmap_error) ≡ true = ground arith in
          rw eq ((r, b), refl, inr (e, refl, none))

-- For an empty group `bitmap_scan_and_flip` returns `start`, and no bit changes.
pub scan_and_flip-zero :
    {b : Bitmap}
    → IsValid b
    → (start : ℕ) → start ≤ b.bit_cnt
    → (value : Bool)
    → Returns
        (λ (r, b'). (r ≡ start) × ((j : ℕ) → bit b' j ≡ bit b j))
        (scan_and_flip b start 0 value)
scan_and_flip-zero {b} v start h value =
    let ((r, b'), e, f) = scan_and_flip-Flipped v start 0 h value in ((r, b'), e, outcome r b' f)
  where
    outcome :
        (r : ℕ) (b' : Bitmap)
        → Flipped b start 0 value (r, b')
        → (r ≡ start) × ((j : ℕ) → bit b' j ≡ bit b j)
    outcome r b' (inl (s, shows)) = (
      elim (Bool-cases (r == start)) [
        | inl same ↦ ground arith
        | inr differ ↦ absurd (
            s.first start (omega arith) (ground (arith, s.after))
              (λ j low high. absurd (omega arith)))
      ],
      λ j. ground (arith, shows.shown j),
    )
    outcome r b' (inr (e, same, none)) =
        absurd (none start (omega arith) (omega arith) (λ j low high. absurd (omega arith)))
