-- ===== src/CString/Spans.antt =====
-- The rest of string.c: spans, the last place of a character, substrings.
use course_archive.Prelude.{
  ℕ, zero, suc, ◌+◌, ◌-◌, ◌%◌, ◌≤◌, ◌<◌, ◌≡◌, ap, Bool, true, false, not, ◌&&◌, ◌||◌, Option, none,
  some, ◌==◌, ltb, leb, if◌then◌else◌, Returns, Bool-cases, inl, inr, arith, ◌>>=◌, ◌>>◌, assert,
}
use course_archive.CString.{
  Memory, ℤ, pos, poke, address_space, is_some, memcmp, memcpy, strlen, strchr,
}
use course_archive.CString.Search.{First, first, IsString, there_or_on}
use course_archive.CString.Token.{delimiter, strchr-has, zero-end, end-delimiter}

unfoldable pub strcspn_loop : ℕ → Memory → ℕ → ℕ → ℕ → Option ℕ
strcspn_loop zero mem string stop length = none
strcspn_loop (suc fuel) mem string stop length = do
  let rest = strcspn_loop fuel mem string stop (length + 1)
  let tested = (do
    found ← strchr mem stop (mem (string + length))
    if is_some found then some length else rest)
  if mem (string + length) == 0 then some length else tested

unfoldable pub strcspn : Memory → ℕ → ℕ → Option ℕ
strcspn mem string stop = strcspn_loop address_space mem string stop 0

unfoldable pub strspn_loop : ℕ → Memory → ℕ → ℕ → ℕ → Option ℕ
strspn_loop zero mem string skip length = none
strspn_loop (suc fuel) mem string skip length = do
  let rest = strspn_loop fuel mem string skip (length + 1)
  let tested = (do
    found ← strchr mem skip (mem (string + length))
    if is_some found then rest else some length)
  if mem (string + length) == 0 then some length else tested

unfoldable pub strspn : Memory → ℕ → ℕ → Option ℕ
strspn mem string skip = strspn_loop address_space mem string skip 0

unfoldable pub strpbrk_loop : ℕ → Memory → ℕ → ℕ → Option (Option ℕ)
strpbrk_loop zero mem string stop = none
strpbrk_loop (suc fuel) mem string stop = do
  let rest = strpbrk_loop fuel mem (string + 1) stop
  let tested = (do
    found ← strchr mem stop (mem string)
    if is_some found then some (some string) else rest)
  if mem string == 0 then some none else tested

unfoldable pub strpbrk : Memory → ℕ → ℕ → Option (Option ℕ)
strpbrk mem string stop = strpbrk_loop address_space mem string stop

-- The result so far is `p`.
unfoldable pub strrchr_loop : ℕ → Memory → ℕ → ℕ → Option ℕ → Option (Option ℕ)
strrchr_loop zero mem string c p = none
strrchr_loop (suc fuel) mem string c p =
    let rest = strrchr_loop fuel mem (string + 1) c (if mem string == c then some string else p) in
    if mem string == 0 then some p else rest

unfoldable pub strrchr : Memory → ℕ → ℕ → Option (Option ℕ)
strrchr mem string c = strrchr_loop address_space mem string (c % 256) none

abbrev is_zero : ℤ → Bool
is_zero (pos zero) = true
is_zero _ = false

-- `i` runs up from `at`, for `left` values.
unfoldable pub strstr_loop : ℕ → Memory → ℕ → ℕ → ℕ → ℕ → Option (Option ℕ)
strstr_loop zero mem haystack needle needle_len i = some none
strstr_loop (suc left) mem haystack needle needle_len i = do
  let rest = strstr_loop left mem haystack needle needle_len (i + 1)
  r ← memcmp mem (haystack + i) needle needle_len
  if is_zero r then some (some (haystack + i)) else rest

unfoldable pub strstr : Memory → ℕ → ℕ → Option (Option ℕ)
strstr mem haystack needle = do
  haystack_len ← strlen mem haystack
  needle_len ← strlen mem needle
  if leb needle_len haystack_len
      then strstr_loop (haystack_len - needle_len + 1) mem haystack needle needle_len 0
      else some none

unfoldable pub strnlen_loop : ℕ → Memory → ℕ → ℕ → ℕ
strnlen_loop zero mem string length = length
strnlen_loop (suc left) mem string length =
    let rest = strnlen_loop left mem string (length + 1) in
    if mem (string + length) == 0 then length else rest

abbrev pub strnlen : Memory → ℕ → ℕ → ℕ
strnlen mem string maxlen = strnlen_loop maxlen mem string 0

unfoldable pub strlcat : Memory → ℕ → ℕ → ℕ → Option (ℕ × Memory)
strlcat mem dst src size = do
  assert (not (dst == 0))
  assert (not (src == 0))
  src_len ← strlen mem src
  dst_len ← strlen mem dst
  let room = size - dst_len - 1
  let copy_cnt = if ltb src_len room then src_len else room
  let appended = (do
    (mem', _) ← memcpy mem (dst + dst_len) src copy_cnt
    some (src_len + dst_len, poke mem' (dst + dst_len + copy_cnt) 0))
  if not (size == 0) && ltb dst_len size then appended else some (src_len + dst_len, mem)

-- The spans, for a string `d` of characters.
module _ {mem : Memory} {d m s n : ℕ} (ds : IsString mem d m) (str : IsString mem s n)
    (bytes : (a : ℕ) → mem a < 256) where
  strcspn_loop-end :
      (fuel p e : ℕ)
      → p ≤ e
      → e < p + fuel
      → e ≤ n
      → ((i : ℕ) → p ≤ i → i < e → delimiter mem d m (s + i) ≡ false)
      → delimiter mem d m (s + e) ≡ true
      → strcspn_loop fuel mem s d p ≡ some e
  unfolding strcspn_loop
  strcspn_loop-end zero p e le lt bound before at = absurd (omega arith)
  strcspn_loop-end (suc fuel) p e le lt bound before at =
      let (r, found, is) = strchr-has mem d m (mem (s + p)) ds (bytes (s + p)) in
      elim (there_or_on (λ i. delimiter mem d m (s + i)) p e le before at) [
        | inl (same, here) ↦ elim (Bool-cases (mem (s + p) == 0)) [
          | inl z ↦ rw z (ap (λ (a : ℕ). some a) same)
          | inr nz ↦ rw (nz, found, is, here) (ap (λ (a : ℕ). some a) same)
        ]
        | inr (on, other) ↦
            let full : (mem (s + p) == 0) ≡ false = str.full p (omega arith) in
            rw (full, found, is, other)
              (strcspn_loop-end fuel (p + 1) e on (omega arith) bound
                (λ a l u. before a (omega arith) u) at)
      ]

  strspn_loop-end :
      (fuel p e : ℕ)
      → p ≤ e
      → e < p + fuel
      → e ≤ n
      → ((i : ℕ) → p ≤ i → i < e → (not (delimiter mem d m (s + i)) || (i == n)) ≡ false)
      → (not (delimiter mem d m (s + e)) || (e == n)) ≡ true
      → strspn_loop fuel mem s d p ≡ some e
  unfolding strspn_loop
  strspn_loop-end zero p e le lt bound before at = absurd (omega arith)
  strspn_loop-end (suc fuel) p e le lt bound before at =
      let (r, found, is) = strchr-has mem d m (mem (s + p)) ds (bytes (s + p)) in
      let z = zero-end mem s n p str (omega arith) in
      elim (there_or_on (λ i. not (delimiter mem d m (s + i)) || (i == n)) p e le before at) [
        | inl (same, here) ↦ elim (Bool-cases (p == n)) [
          | inl last ↦ rw (z, last) (ap (λ (a : ℕ). some a) same)
          | inr inner ↦
              let other : delimiter mem d m (s + p) ≡ false = ground arith in
              rw (z, inner, found, is, other) (ap (λ (a : ℕ). some a) same)
        ]
        | inr (on, going) ↦
            let inner : (p == n) ≡ false = ground arith in
            let inside_span : delimiter mem d m (s + p) ≡ true = ground arith in
            rw (z, inner, found, is, inside_span)
              (strspn_loop-end fuel (p + 1) e on (omega arith) bound
                (λ a l u. before a (omega arith) u) at)
      ]

-- The longest span at `s` whose bytes have `q`.
abbrev pub Span : (ℕ → Bool) → ℕ → ℕ → ℕ → Type 0
Span q s n k =
    (k ≤ n) × ((i : ℕ) → i < k → q (s + i) ≡ true) × ((not (q (s + k)) || (k == n)) ≡ true)

-- `strspn` and `strcspn` return the length of the longest span at the begin of the string whose
-- bytes all are in `d`, or all are not in it.
pub strspn-Span :
    (mem : Memory) (s d n m : ℕ)
    → IsString mem s n
    → IsString mem d m
    → ((a : ℕ) → mem a < 256)
    → Returns (Span (delimiter mem d m) s n) (strspn mem s d)
      × Returns (Span (λ a. not (delimiter mem d m a)) s n) (strcspn mem s d)
unfolding strspn strcspn
strspn-Span mem s d n m str ds bytes =
    let f : First (λ i. not (delimiter mem d m (s + i)) || (i == n)) n =
      first (λ i. not (delimiter mem d m (s + i)) || (i == n)) n (ground arith) in
    let g : First (λ i. delimiter mem d m (s + i)) n =
      first (λ i. delimiter mem d m (s + i)) n (end-delimiter mem d m s n ds str) in
    (
      (
        f.index,
        strspn_loop-end ds str bytes address_space 0 f.index (omega arith)
            (omega (arith, f.bound, str.room)) f.bound (λ i _ lt. f.before i lt) f.there,
        (f.bound, λ i lt. ground (arith, f.before i lt), f.there),
      ),
      (
        g.index,
        strcspn_loop-end ds str bytes address_space 0 g.index (omega arith)
            (omega (arith, g.bound, str.room)) g.bound (λ i _ lt. g.before i lt) g.there,
        (g.bound, λ i lt. ground (arith, g.before i lt), ground (arith, g.there)),
      ),
    )
