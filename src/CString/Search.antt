-- ===== src/CString/Search.antt =====
-- Looking for the first byte of a kind, in a block or in a string.
use mathlib.Core.Path.{subst}
use course_archive.Prelude.{
  ℕ, zero, suc, ◌+◌, ◌-◌, ◌%◌, ◌≤◌, ◌<◌, ◌≡◌, refl, sym, ◌∙◌, ap, Bool, true, false, ◌||◌, Option,
  none, some, ◌==◌, if◌then◌else◌, Returns, Bool-cases, ◌⊎◌, inl, inr, arith,
}
use course_archive.CString.{Memory, address_space, strlen_loop, strlen, strchr_loop, strchr}

-- The first place up to `n` where `q` holds.
pub record First (q : ℕ → Bool) (n : ℕ) : Type 0 where
  pub index : ℕ
  pub bound : index ≤ n
  pub there : q index ≡ true
  pub before : (i : ℕ) → i < index → q i ≡ false

pub first : (q : ℕ → Bool) (n : ℕ) → q n ≡ true → First q n
first q zero h = record {
  index = 0;
  bound = omega arith;
  there = h;
  before = λ i lt. absurd (omega arith);
}
first q (suc n) h = elim (Bool-cases (q 0)) [
  | inl now ↦ record {
    index = 0;
    bound = omega arith;
    there = now;
    before = λ i lt. absurd (omega arith);
  }
  | inr later ↦
      let r = first (λ i. q (suc i)) n h in
      record {
        index = suc r.index;
        bound = omega (arith, r.bound);
        there = r.there;
        before = before later r;
      }
]
  where
    before : q 0 ≡ false → (r : First (λ i. q (suc i)) n) → (i : ℕ) → i < suc r.index → q i ≡ false
    before later r zero lt = later
    before later r (suc i) lt = r.before i (omega arith)

-- `n` bytes that are not zero stand at `s`, and a zero byte behind them.
pub record IsString (mem : Memory) (s n : ℕ) : Type 0 where
  pub address : (s == 0) ≡ false
  pub full : (i : ℕ) → i < n → (mem (s + i) == 0) ≡ false
  pub end : (mem (s + n) == 0) ≡ true
  pub room : n < address_space

-- The bytes before a place, by their addresses.
pub by_address :
    (q : ℕ → Bool) (s n : ℕ)
    → ((i : ℕ) → i < n → q (s + i) ≡ false)
    → (a : ℕ) → s ≤ a
    → a < s + n
    → q a ≡ false
by_address q s n h a le lt = subst (λ (b : ℕ). q b ≡ false) (omega arith) (h (a - s) (omega arith))

-- A loop that goes up from `p` to the first `e` where `q` holds either is there, or goes on.
pub there_or_on :
    (q : ℕ → Bool) (p e : ℕ)
    → p ≤ e
    → ((a : ℕ) → p ≤ a → a < e → q a ≡ false)
    → q e ≡ true
    → ((p ≡ e) × (q p ≡ true)) ⊎ ((p + 1 ≤ e) × (q p ≡ false))
there_or_on q p e le before at = elim (Bool-cases (p == e)) [
  | inl same ↦ inl (ground arith, subst (λ (a : ℕ). q a ≡ true) (ground arith) at)
  | inr differ ↦ inr (ground arith, before p (omega arith) (ground arith))
]

strlen_loop-end :
    (fuel : ℕ) (mem : Memory) (p e : ℕ)
    → p ≤ e
    → e < p + fuel
    → ((a : ℕ) → p ≤ a → a < e → (mem a == 0) ≡ false)
    → (mem e == 0) ≡ true
    → strlen_loop fuel mem p ≡ some e
unfolding strlen_loop
strlen_loop-end zero mem p e le lt full end = absurd (omega arith)
strlen_loop-end (suc fuel) mem p e le lt full end =
    elim (there_or_on (λ a. mem a == 0) p e le full end) [
      | inl (same, z) ↦ rw z (ap (λ (a : ℕ). some a) same)
      | inr (on, nz) ↦ rw nz (
          strlen_loop-end fuel mem (p + 1) e on (omega arith) (λ a l u. full a (omega arith) u) end)
    ]

strlen-loop :
    (mem : Memory) (s p : ℕ)
    → (s == 0) ≡ false
    → strlen_loop address_space mem s ≡ some p
    → strlen mem s ≡ some (p - s)
unfolding strlen
strlen-loop mem s p a e = rw (a, e) refl

-- `strlen` of a string returns its length.
pub strlen-length : (mem : Memory) (s n : ℕ) → IsString mem s n → strlen mem s ≡ some n
strlen-length mem s n str =
    strlen-loop mem s (s + n) str.address (
      strlen_loop-end address_space mem s (s + n) (omega arith) (omega (arith, str.room))
        (by_address (λ a. mem a == 0) s n str.full) str.end)
    ∙ ap (λ (m : ℕ). some m) (omega arith)

strchr_loop-stop :
    (fuel : ℕ) (mem : Memory) (p e c : ℕ)
    → p ≤ e
    → e < p + fuel
    → ((a : ℕ) → p ≤ a → a < e → ((mem a == c) || (mem a == 0)) ≡ false)
    → ((mem e == c) || (mem e == 0)) ≡ true
    → strchr_loop fuel mem p c ≡ some (if mem e == c then some e else none)
unfolding strchr_loop
strchr_loop-stop zero mem p e c le lt before at = absurd (omega arith)
strchr_loop-stop (suc fuel) mem p e c le lt before at =
    elim (there_or_on (λ a. (mem a == c) || (mem a == 0)) p e le before at) [
      | inl (same, _) ↦
          subst
            (λ (a : ℕ). strchr_loop (suc fuel) mem a c ≡ some (if mem e == c then some e else none))
            (sym same) (halt at)
      | inr (on, neither) ↦
          let other : (mem p == c) ≡ false = ground arith in
          let going : (mem p == 0) ≡ false = ground arith in
          rw (other, going)
            (strchr_loop-stop fuel mem (p + 1) e c on (omega arith)
              (λ a l u. before a (omega arith) u) at)
    ]
  where
    halt :
        ((mem e == c) || (mem e == 0)) ≡ true
        → strchr_loop (suc fuel) mem e c ≡ some (if mem e == c then some e else none)
    halt h = elim (Bool-cases (mem e == c)) [
      | inl here ↦ rw here refl
      | inr gone ↦ let z : (mem e == 0) ≡ true = ground arith in rw (gone, z) refl
    ]

strchr-loop :
    (mem : Memory) (s c : ℕ) (r : Option ℕ)
    → (s == 0) ≡ false
    → strchr_loop address_space mem s (c % 256) ≡ some r
    → strchr mem s c ≡ some r
unfolding strchr
strchr-loop mem s c r a e = rw (a, e) refl

-- What `strchr` returns: the first place with the character, its end included, or, if there is
-- none, a null pointer.
abbrev pub FirstChar : Memory → ℕ → ℕ → ℕ → Option ℕ → Type 0
FirstChar mem s n c none = (i : ℕ) → i ≤ n → (mem (s + i) == c) ≡ false
FirstChar mem s n c (some p) =
    (j : ℕ) × (p ≡ s + j)
    × (j ≤ n)
    × ((mem (s + j) == c) ≡ true)
    × ((i : ℕ) → i < j → (mem (s + i) == c) ≡ false)

-- A search that stopped at the end has seen the whole string.
nowhere :
    (mem : Memory) (s n c : ℕ)
    → IsString mem s n
    → (f : First (λ i. (mem (s + i) == c) || (mem (s + i) == 0)) n)
    → (mem (s + f.index) == c) ≡ false
    → (i : ℕ) → i ≤ n
    → (mem (s + i) == c) ≡ false
nowhere mem s n c str f gone i le =
    let z : (mem (s + f.index) == 0) ≡ true = ground (arith, f.there) in
    let whole : f.index ≡ n = elim (Bool-cases (f.index == n)) [
      | inl same ↦ ground arith
      | inr differ ↦ absurd (ground (arith, str.full f.index (ground (arith, f.bound))))
    ] in
    elim (Bool-cases (i == f.index)) [
      | inl same ↦ subst (λ (k : ℕ). (mem (s + k) == c) ≡ false) (ground arith) gone
      | inr differ ↦ ground (arith, f.before i (ground (arith, whole)))
    ]

-- `strchr` on a string returns the first place of the character, where the end of the string is
-- the place of the zero byte, and a null pointer exactly if the string does not contain it.
pub strchr-FirstChar :
    (mem : Memory) (s n c : ℕ)
    → IsString mem s n
    → Returns (FirstChar mem s n (c % 256)) (strchr mem s c)
strchr-FirstChar mem s n c str =
    let stop : (ℕ → Bool) = (λ a. (mem a == (c % 256)) || (mem a == 0)) in
    let f : First (λ i. stop (s + i)) n = first (λ i. stop (s + i)) n (ground (arith, str.end)) in
    let run =
      strchr-loop mem s c (if mem (s + f.index) == (c % 256) then some (s + f.index) else none)
        str.address
        (strchr_loop-stop address_space mem s (s + f.index) (c % 256) (omega arith)
          (omega (arith, f.bound, str.room)) (by_address stop s f.index f.before) f.there) in
    elim (Bool-cases (mem (s + f.index) == (c % 256))) [
      | inl found ↦ (
        some (s + f.index),
        run ∙ rw found refl,
        (f.index, refl, f.bound, found, λ i lt. ground (arith, f.before i lt)),
      )
      | inr gone ↦ (none, run ∙ rw gone refl, nowhere mem s n (c % 256) str f gone)
    ]
