-- ===== src/CString.antt =====
-- PintOS/src/lib/string.c: blocks of memory and strings that end with a zero byte. An address is a
-- number, 0 is the null pointer, and no block wraps round the end of the address space. `none` is
-- a failed ASSERT, or a string without an end.
pub mod Copy
pub mod Search
pub mod Blocks
pub mod Token
pub mod Bounded
pub mod Spans
pub mod Compare
mod Tests
use course_archive.Prelude.{
  ℕ, zero, suc, ◌+◌, ◌-◌, ◌%◌, ◌^◌, Bool, true, false, not, ◌&&◌, ◌||◌, Option, none, some, ◌==◌,
  ltb, leb, if◌then◌else◌, ◌>>=◌, ◌>>◌, assert,
}

abbrev pub Memory : Type 0
Memory = ℕ → ℕ

abbrev pub poke : Memory → ℕ → ℕ → Memory
poke mem a v b = if b == a then v else mem b

-- The int that a comparison returns.
pub data ℤ : Type 0 where
  pos negsuc : ℕ → ℤ

-- No string is longer than the address space.
abbrev pub address_space : ℕ
address_space = 2 ^ 32

abbrev pub is_some : Option ℕ → Bool
is_some none = false
is_some (some _) = true

-- ASSERT (p != NULL || size == 0)
abbrev pub assert_block : ℕ → ℕ → Option (Unit {0})
assert_block p size = assert (not (p == 0) || (size == 0))

-- `while (size-- > 0) *dst++ = *src++;`, with the last `dst`.
unfoldable pub copy_up : ℕ → Memory → ℕ → ℕ → Memory × ℕ
copy_up zero mem dst src = (mem, dst)
copy_up (suc size) mem dst src = copy_up size (poke mem dst (mem src)) (dst + 1) (src + 1)

-- `while (size-- > 0) *--dst = *--src;`
unfoldable pub copy_down : ℕ → Memory → ℕ → ℕ → Memory × ℕ
copy_down zero mem dst src = (mem, dst)
copy_down (suc size) mem dst src =
    copy_down size (poke mem (dst - 1) (mem (src - 1))) (dst - 1) (src - 1)

unfoldable pub memcpy : Memory → ℕ → ℕ → ℕ → Option (Memory × ℕ)
memcpy mem dst src size = do
  assert_block dst size
  assert_block src size
  let (mem', _) = copy_up size mem dst src
  some (mem', dst)

unfoldable pub memmove : Memory → ℕ → ℕ → ℕ → Option (Memory × ℕ)
memmove mem dst src size = do
  assert_block dst size
  assert_block src size
  some (
      if ltb dst src
      then copy_up size mem dst src
      else copy_down size mem (dst + size) (src + size))

unfoldable pub compare_loop : ℕ → Memory → ℕ → ℕ → ℤ
compare_loop zero mem a b = pos 0
compare_loop (suc size) mem a b =
    let rest = compare_loop size mem (a + 1) (b + 1) in
    if mem a == mem b then rest else (if ltb (mem b) (mem a) then pos 1 else negsuc 0)

unfoldable pub memcmp : Memory → ℕ → ℕ → ℕ → Option ℤ
memcmp mem a b size = do assert_block a size; assert_block b size; some (compare_loop size mem a b)

unfoldable pub memset_loop : ℕ → Memory → ℕ → ℕ → Memory
memset_loop zero mem dst value = mem
memset_loop (suc size) mem dst value = memset_loop size (poke mem dst (value % 256)) (dst + 1) value

unfoldable pub memset : Memory → ℕ → ℕ → ℕ → Option (Memory × ℕ)
memset mem dst value size = do assert_block dst size; some (memset_loop size mem dst value, dst)

unfoldable pub memchr_loop : ℕ → Memory → ℕ → ℕ → Option ℕ
memchr_loop zero mem block ch = none
memchr_loop (suc size) mem block ch =
    let rest = memchr_loop size mem (block + 1) ch in if mem block == ch then some block else rest

unfoldable pub memchr : Memory → ℕ → ℕ → ℕ → Option (Option ℕ)
memchr mem block ch size = do assert_block block size; some (memchr_loop size mem block (ch % 256))

unfoldable pub strlen_loop : ℕ → Memory → ℕ → Option ℕ
strlen_loop zero mem p = none
strlen_loop (suc fuel) mem p =
    let rest = strlen_loop fuel mem (p + 1) in if mem p == 0 then some p else rest

unfoldable pub strlen : Memory → ℕ → Option ℕ
strlen mem string = do
  assert (not (string == 0))
  p ← strlen_loop address_space mem string
  some (p - string)

unfoldable pub strchr_loop : ℕ → Memory → ℕ → ℕ → Option (Option ℕ)
strchr_loop zero mem string c = none
strchr_loop (suc fuel) mem string c =
    let rest = strchr_loop fuel mem (string + 1) c in
    if mem string == c then some (some string) else (if mem string == 0 then some none else rest)

unfoldable pub strchr : Memory → ℕ → ℕ → Option (Option ℕ)
strchr mem string c = do assert (not (string == 0)); strchr_loop address_space mem string (c % 256)

-- The first loop of `strtok_r`: false if it met the end of the string.
unfoldable pub skip_loop : ℕ → Memory → ℕ → ℕ → Option (Bool × ℕ)
skip_loop zero mem delimiters s = none
skip_loop (suc fuel) mem delimiters s = do
  let rest = skip_loop fuel mem delimiters (s + 1)
  found ← strchr mem delimiters (mem s)
  if is_some found then (if mem s == 0 then some (false, s) else rest) else some (true, s)

-- The second loop of `strtok_r`.
unfoldable pub token_loop : ℕ → Memory → ℕ → ℕ → Option ℕ
token_loop zero mem delimiters s = none
token_loop (suc fuel) mem delimiters s = do
  let rest = token_loop fuel mem delimiters (s + 1)
  found ← strchr mem delimiters (mem s)
  if is_some found then some s else rest

-- The third result is `*save_ptr`.
unfoldable pub strtok_r : Memory → ℕ → ℕ → ℕ → Option (Option ℕ × Memory × ℕ)
strtok_r mem s delimiters save_ptr = do
  assert (not (delimiters == 0))
  let start = if s == 0 then save_ptr else s
  assert (not (start == 0))
  (some_left, token) ← skip_loop address_space mem delimiters start
  let finish = (do
    end ← token_loop address_space mem delimiters token
    some (if mem end == 0 then (some token, mem, end) else (some token, poke mem end 0, end + 1)))
  if some_left then finish else some (none, mem, token)

unfoldable pub strlcpy : Memory → ℕ → ℕ → ℕ → Option (ℕ × Memory)
strlcpy mem dst src size = do
  assert (not (dst == 0))
  assert (not (src == 0))
  src_len ← strlen mem src
  let dst_len = if ltb src_len (size - 1) then src_len else size - 1
  let copied = (do
    (mem', _) ← memcpy mem dst src dst_len
    some (src_len, poke mem' (dst + dst_len) 0))
  if size == 0 then some (src_len, mem) else copied
