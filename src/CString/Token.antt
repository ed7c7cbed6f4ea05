-- ===== src/CString/Token.antt =====
-- `strtok_r` cuts the next token out of a string.
use mathlib.Core.Path.{subst}
use course_archive.Prelude.{
  ℕ, zero, suc, ◌+◌, ◌-◌, ◌≤◌, ◌<◌, ◌≡◌, refl, sym, ◌∙◌, ap, Bool, true, false, not, ◌||◌, Option,
  none, some, ◌==◌, if◌then◌else◌, Returns, Bool-cases, inl, inr, arith,
}
use course_archive.CString.{
  Memory, poke, address_space, is_some, strchr, skip_loop, token_loop, strtok_r,
}
use course_archive.CString.Search.{
  First, first, IsString, FirstChar, strchr-FirstChar, by_address, there_or_on,
}

-- Whether a character stands in a string of `n` bytes, its end included.
abbrev pub has : Memory → ℕ → ℕ → ℕ → Bool
has mem s zero c = mem (s + 0) == c
has mem s (suc n) c = (mem (s + suc n) == c) || has mem s n c

has-true : (mem : Memory) (s n c i : ℕ) → i ≤ n → (mem (s + i) == c) ≡ true → has mem s n c ≡ true
has-true mem s zero c i le h = subst (λ (j : ℕ). (mem (s + j) == c) ≡ true) (omega arith) h
has-true mem s (suc n) c i le h = elim (Bool-cases (i == suc n)) [
  | inl last ↦
      let e : (mem (s + suc n) == c) ≡ true =
        subst (λ (j : ℕ). (mem (s + j) == c) ≡ true) (ground arith) h in
      rw e refl
  | inr inner ↦ let rest = has-true mem s n c i (ground arith) h in ground arith
]

has-false :
    (mem : Memory) (s n c : ℕ)
    → ((i : ℕ) → i ≤ n → (mem (s + i) == c) ≡ false)
    → has mem s n c ≡ false
has-false mem s zero c h = h 0 (omega arith)
has-false mem s (suc n) c h =
    let e : (mem (s + suc n) == c) ≡ false = h (suc n) (omega arith) in
    rw e (has-false mem s n c (λ i le. h i (omega arith)))

-- `strchr`, as a test.
pub strchr-has :
    (mem : Memory) (s n c : ℕ)
    → IsString mem s n
    → c < 256
    → Returns (λ r. is_some r ≡ has mem s n c) (strchr mem s c)
strchr-has mem s n c str small =
    let (r, e, h) = strchr-FirstChar mem s n c str in
    (r, e, go r (subst (λ (b : ℕ). FirstChar mem s n b r) (omega arith) h))
  where
    go : (r : Option ℕ) → FirstChar mem s n c r → is_some r ≡ has mem s n c
    go none h = sym (has-false mem s n c h)
    go (some p) (j, _, le, at, _) = sym (has-true mem s n c j le at)

-- Whether the byte at an address is a delimiter, as the zero byte always is.
abbrev pub delimiter : Memory → ℕ → ℕ → ℕ → Bool
delimiter mem d m a = has mem d m (mem a)

landing :
    (mem : Memory) (d m p e : ℕ) (b : Bool)
    → p ≡ e
    → delimiter mem d m p ≡ b
    → ◌≡◌ {A = Option (Bool × ℕ)} (some (not b, p)) (some (not (delimiter mem d m e), e))
landing mem d m p e b same h =
    subst
      (λ (a : ℕ).
        ◌≡◌ {A = Option (Bool × ℕ)} (some (not b, p)) (some (not (delimiter mem d m a), a)))
      same (rw h refl)

-- The loops, for a string `d` of delimiters.
module _ {mem : Memory} {d m : ℕ} (str : IsString mem d m) (bytes : (a : ℕ) → mem a < 256) where
  token_loop-end :
      (fuel p e : ℕ)
      → p ≤ e
      → e < p + fuel
      → ((a : ℕ) → p ≤ a → a < e → delimiter mem d m a ≡ false)
      → delimiter mem d m e ≡ true
      → token_loop fuel mem d p ≡ some e
  unfolding token_loop
  token_loop-end zero p e le lt before at = absurd (omega arith)
  token_loop-end (suc fuel) p e le lt before at =
      let (r, found, is) = strchr-has mem d m (mem p) str (bytes p) in
      elim (there_or_on (delimiter mem d m) p e le before at) [
        | inl (same, here) ↦ rw (found, is, here) (ap (λ (a : ℕ). some a) same)
        | inr (on, other) ↦
            rw (found, is, other)
              (token_loop-end fuel (p + 1) e on (omega arith) (λ a l u. before a (omega arith) u)
                at)
      ]

  skip_loop-end :
      (fuel p e : ℕ)
      → p ≤ e
      → e < p + fuel
      → ((a : ℕ) → p ≤ a → a < e → (not (delimiter mem d m a) || (mem a == 0)) ≡ false)
      → (not (delimiter mem d m e) || (mem e == 0)) ≡ true
      → skip_loop fuel mem d p ≡ some (not (delimiter mem d m e), e)
  unfolding skip_loop
  skip_loop-end zero p e le lt before at = absurd (omega arith)
  skip_loop-end (suc fuel) p e le lt before at =
      let (r, found, is) = strchr-has mem d m (mem p) str (bytes p) in
      elim (there_or_on (λ a. not (delimiter mem d m a) || (mem a == 0)) p e le before at) [
        | inl (same, here) ↦ elim (Bool-cases (delimiter mem d m p)) [
          | inl is_delimiter ↦
              let end : (mem p == 0) ≡ true = ground arith in
              rw (found, is, is_delimiter, end) (landing mem d m p e true same is_delimiter)
          | inr other ↦ rw (found, is, other) (landing mem d m p e false same other)
        ]
        | inr (on, going) ↦
            let is_delimiter : delimiter mem d m p ≡ true = ground arith in
            let full : (mem p == 0) ≡ false = ground arith in
            rw (found, is, is_delimiter, full)
              (skip_loop-end fuel (p + 1) e on (omega arith) (λ a l u. before a (omega arith) u) at)
      ]

-- The results of `strtok_r` on a string of `n` bytes at `s`: the token has the bytes from `from` up
-- to `until`, and lies between delimiters.
abbrev pub Tokenized : Memory → ℕ → ℕ → ℕ → ℕ → Option ℕ → Memory → ℕ → Type 0
Tokenized mem s n d m none mem' save =
    ((i : ℕ) → i < n → delimiter mem d m (s + i) ≡ true) × (mem' ≡ mem) × (save ≡ s + n)
Tokenized mem s n d m (some token) mem' save =
    (from : ℕ) × (until : ℕ) × (token ≡ s + from)
    × ((from < until) × (until ≤ n))
    × (((i : ℕ) → i < from → delimiter mem d m (s + i) ≡ true)
        × ((i : ℕ) → from ≤ i → i < until → delimiter mem d m (s + i) ≡ false)
        × (delimiter mem d m (s + until) ≡ true))
    × ((mem' ≡ (if until == n then mem else poke mem (s + until) 0))
        × (save ≡ (if until == n then s + n else s + until + 1)))

-- How the loops give the result.
strtok-none :
    (mem : Memory) (s d save start e : ℕ)
    → (d == 0) ≡ false
    → (if s == 0 then save else s) ≡ start
    → (start == 0) ≡ false
    → skip_loop address_space mem d start ≡ some (false, e)
    → strtok_r mem s d save ≡ some (none, mem, e)
unfolding strtok_r
strtok-none mem s d save start e dn st sn run = rw (dn, st, sn, run) refl

strtok-some :
    (mem : Memory) (s d save start t e : ℕ)
    → (d == 0) ≡ false
    → (if s == 0 then save else s) ≡ start
    → (start == 0) ≡ false
    → skip_loop address_space mem d start ≡ some (true, t)
    → token_loop address_space mem d t ≡ some e
    → strtok_r mem s d save
      ≡ some (some t, (if mem e == 0 then mem else poke mem e 0), (if mem e == 0 then e else e + 1))
unfolding strtok_r
strtok-some mem s d save start t e dn st sn run run2 = elim (Bool-cases (mem e == 0)) [
  | inl z ↦ rw (dn, st, sn, run, run2, z) refl
  | inr nz ↦ rw (dn, st, sn, run, run2, nz) refl
]

-- Only the end of a string is zero,
pub zero-end : (mem : Memory) (s n i : ℕ) → IsString mem s n → i ≤ n → (mem (s + i) == 0) ≡ (i == n)
zero-end mem s n i str le = elim (Bool-cases (i == n)) [
  | inl last ↦ rw last (subst (λ (j : ℕ). (mem (s + j) == 0) ≡ true) (ground arith) str.end)
  | inr inner ↦ rw inner (str.full i (ground arith))
]

-- and there every string of delimiters has a delimiter.
pub end-delimiter :
    (mem : Memory) (d m s n : ℕ)
    → IsString mem d m
    → IsString mem s n
    → delimiter mem d m (s + n) ≡ true
end-delimiter mem d m s n ds str =
    let z : mem (s + n) ≡ 0 = ground (arith, str.end) in
    has-true mem d m (mem (s + n)) m (omega arith) (rw z ds.end)

saved :
    (s until n : ℕ)
    → (if until == n then s + until else s + until + 1)
      ≡ (if until == n then s + n else s + until + 1)
saved s until n = elim (Bool-cases (until == n)) [
  | inl last ↦ ground arith
  | inr inner ↦ ground arith
]

-- Where a token that begins at `from` ends.
token_end :
    (mem : Memory) (d m s n from : ℕ)
    → IsString mem d m
    → IsString mem s n
    → from ≤ n
    → delimiter mem d m (s + from) ≡ false
    → (until : ℕ) × (until ≤ n)
      × (from < until)
      × ((a : ℕ) → s + from ≤ a → a < s + until → delimiter mem d m a ≡ false)
      × (delimiter mem d m (s + until) ≡ true)
token_end mem d m s n from ds str le begins =
    let at_end : delimiter mem d m ((s + from) + (n - from)) ≡ true =
      subst (λ (a : ℕ). delimiter mem d m a ≡ true) (omega arith)
        (end-delimiter mem d m s n ds str) in
    let g : First (λ i. delimiter mem d m ((s + from) + i)) (n - from) =
      first (λ i. delimiter mem d m ((s + from) + i)) (n - from) at_end in
    let more : (g.index == 0) ≡ false = elim (Bool-cases (g.index == 0)) [
      | inl z ↦
          absurd
            (differ (begins) (subst (λ (a : ℕ). delimiter mem d m a ≡ true) (ground arith) g.there))
      | inr nz ↦ nz
    ] in
    (
      from + g.index,
      omega (arith, g.bound),
      ground (arith, more),
      λ a l u. by_address (delimiter mem d m) (s + from) g.index g.before a l (omega arith),
      subst (λ (a : ℕ). delimiter mem d m a ≡ true) (omega arith) g.there,
    )
  where
    differ : {b : Bool} → b ≡ false → b ≡ true → ⊥
    differ f t = ground arith

-- `strtok_r`, on a string or, if `s` is null, on what the last call left, with a string of
-- delimiters, returns the first longest run of bytes that are no delimiters, ends it by a zero byte,
-- changes nothing else and saves the place behind; if only delimiters are left, it returns a null
-- pointer and saves the end of the string. A token is never empty.
pub strtok_r-Tokenized :
    (mem : Memory) (s d save n m : ℕ)
    → ((a : ℕ) → mem a < 256)
    → IsString mem d m
    → IsString mem (if s == 0 then save else s) n
    → Returns
        (λ (token, mem', save'). Tokenized mem (if s == 0 then save else s) n d m token mem' save')
        (strtok_r mem s d save)
strtok_r-Tokenized mem s d save n m bytes ds str =
    let start : ℕ = if s == 0 then save else s in
    let halts : (ℕ → Bool) = (λ a. not (delimiter mem d m a) || (mem a == 0)) in
    let f : First (λ i. halts (start + i)) n =
      first (λ i. halts (start + i)) n (ground (arith, str.end)) in
    let e : ℕ = start + f.index in
    let run : skip_loop address_space mem d start ≡ some (not (delimiter mem d m e), e) =
      skip_loop-end ds bytes address_space start e (omega arith) (omega (arith, f.bound, str.room))
        (by_address halts start f.index f.before) f.there in
    elim (Bool-cases (delimiter mem d m e)) [
      | inl only ↦
          let z : (mem e == 0) ≡ true = ground (arith, f.there) in
          let last : f.index ≡ n = ground (arith, zero-end mem start n f.index str f.bound) in
          (
            (none, mem, e),
            strtok-none mem s d save start e ds.address refl str.address (run ∙ rw only refl),
            (λ i lt. ground (arith, f.before i (omega (arith, last))), refl, omega (arith, last)),
          )
      | inr token ↦
          let (until, le, lt, before, at) =
            token_end mem d m start n f.index ds str f.bound token in
          let run2 =
            token_loop-end ds bytes address_space e (start + until) (omega (arith, lt))
              (omega (arith, le, str.room)) before at in
          let z : (mem (start + until) == 0) ≡ (until == n) = zero-end mem start n until str le in
          (
            (
              some e,
              (if mem (start + until) == 0 then mem else poke mem (start + until) 0),
              (if mem (start + until) == 0 then start + until else start + until + 1),
            ),
            strtok-some mem s d save start e (start + until) ds.address refl str.address
                (run ∙ rw token refl) run2,
            (
              f.index,
              until,
              refl,
              (lt, le),
              (
                λ i l. ground (arith, f.before i l),
                λ i l u. before (start + i) (omega arith) (omega arith),
                at,
              ),
              (rw z refl, rw z (saved start until n)),
            ),
          )
    ]
