-- ===== src/Bitmap.antt =====
-- PintOS/src/lib/kernel/bitmap.c: an array of bits in 32-bit words (`unsigned long` on the i386).
-- `none` is a failed ASSERT or an access outside the array of words.
pub mod View
pub mod Update
pub mod Range
pub mod Scan
pub mod Create
mod Tests
use Prim.Native.Nat.{bit_and, bit_or, bit_xor}
use course_archive.Prelude.{
  ℕ, zero, suc, ◌+◌, ◌-◌, ◌*◌, ◌/◌, ◌%◌, ◌^◌, Bool, true, false, not, Option, none, some, List, [],
  ◌&&◌, ◌==◌, ltb, leb, if◌then◌else◌, get_elem?, set, ◌>>=◌, ◌>>◌, assert,
}

pub record Bitmap : Type 0 where
  pub bit_cnt : ℕ
  pub bits : List ℕ

-- ELEM_BITS, and `size_t` arithmetic.
abbrev pub elem_bits : ℕ
elem_bits = 32

abbrev pub size_mod : ℕ
size_mod = 2 ^ 32

-- BITMAP_ERROR
abbrev pub bitmap_error : ℕ
bitmap_error = size_mod - 1

abbrev pub elem_idx : ℕ → ℕ
elem_idx bit_idx = bit_idx / elem_bits

abbrev pub bit_mask : ℕ → ℕ
bit_mask bit_idx = 2 ^ (bit_idx % elem_bits)

-- DIV_ROUND_UP, whose sum can wrap.
abbrev pub elem_cnt : ℕ → ℕ
elem_cnt bit_cnt = (bit_cnt + (elem_bits - 1)) % size_mod / elem_bits

abbrev pub byte_cnt : ℕ → ℕ
byte_cnt bit_cnt = 4 * elem_cnt bit_cnt % size_mod

unfoldable pub last_mask : Bitmap → ℕ
last_mask b =
    let last_bits = b.bit_cnt % elem_bits in
    if last_bits == 0 then size_mod - 1 else 2 ^ last_bits - 1

-- One read-modify-write instruction on the word of a bit.
abbrev pub modify : Bitmap → ℕ → (ℕ → ℕ) → Option Bitmap
modify b idx f = do w ← get_elem? b.bits idx; some (record b { bits = set b.bits idx (f w) })

unfoldable pub mark : Bitmap → ℕ → Option Bitmap
mark b bit_idx = modify b (elem_idx bit_idx) (λ w. bit_or w (bit_mask bit_idx))

-- `~mask` is the complement in 32 bits.
unfoldable pub reset : Bitmap → ℕ → Option Bitmap
reset b bit_idx = modify b (elem_idx bit_idx) (λ w. bit_and w (size_mod - 1 - bit_mask bit_idx))

unfoldable pub flip : Bitmap → ℕ → Option Bitmap
flip b bit_idx = modify b (elem_idx bit_idx) (λ w. bit_xor w (bit_mask bit_idx))

unfoldable pub set_bit : Bitmap → ℕ → Bool → Option Bitmap
set_bit b idx value = do assert (ltb idx b.bit_cnt); if value then mark b idx else reset b idx

unfoldable pub test : Bitmap → ℕ → Option Bool
test b idx = do
  assert (ltb idx b.bit_cnt)
  w ← get_elem? b.bits (elem_idx idx)
  some (not (bit_and w (bit_mask idx) == 0))

-- The first argument of each loop is the number of rounds left, the second the counter `i`.
unfoldable pub set_loop : ℕ → ℕ → Bitmap → ℕ → Bool → Option Bitmap
set_loop zero i b start value = some b
set_loop (suc n) i b start value = do
  b' ← set_bit b ((start + i) % size_mod) value
  set_loop n (i + 1) b' start value

abbrev pub assert_range : Bitmap → ℕ → ℕ → Option (Unit {0})
assert_range b start cnt = do
  assert (leb start b.bit_cnt)
  assert (leb ((start + cnt) % size_mod) b.bit_cnt)

unfoldable pub set_multiple : Bitmap → ℕ → ℕ → Bool → Option Bitmap
set_multiple b start cnt value = do assert_range b start cnt; set_loop cnt 0 b start value

unfoldable pub set_all : Bitmap → Bool → Option Bitmap
set_all b value = set_multiple b 0 b.bit_cnt value

abbrev pub same : Bool → Bool → Bool
same true v = v
same false v = not v

unfoldable pub count_loop : ℕ → ℕ → ℕ → Bitmap → ℕ → Bool → Option ℕ
count_loop zero i acc b start value = some acc
count_loop (suc n) i acc b start value = do
  t ← test b ((start + i) % size_mod)
  count_loop n (i + 1) (if same t value then acc + 1 else acc) b start value

unfoldable pub count : Bitmap → ℕ → ℕ → Bool → Option ℕ
count b start cnt value = do assert_range b start cnt; count_loop cnt 0 0 b start value

unfoldable pub contains_loop : ℕ → ℕ → Bitmap → ℕ → Bool → Option Bool
contains_loop zero i b start value = some false
contains_loop (suc n) i b start value = do
  t ← test b ((start + i) % size_mod)
  let rest = contains_loop n (i + 1) b start value
  if same t value then some true else rest

unfoldable pub contains : Bitmap → ℕ → ℕ → Bool → Option Bool
contains b start cnt value = do assert_range b start cnt; contains_loop cnt 0 b start value

unfoldable pub any : Bitmap → ℕ → ℕ → Option Bool
any b start cnt = contains b start cnt true

unfoldable pub none_set : Bitmap → ℕ → ℕ → Option Bool
none_set b start cnt = do r ← contains b start cnt true; some (not r)

unfoldable pub all : Bitmap → ℕ → ℕ → Option Bool
all b start cnt = do r ← contains b start cnt false; some (not r)

-- `for (i = start; i <= last; i++)`
unfoldable pub scan_loop : ℕ → ℕ → Bitmap → ℕ → Bool → Option ℕ
scan_loop zero i b cnt value = some bitmap_error
scan_loop (suc n) i b cnt value = do
  hit ← contains b i cnt (not value)
  let rest = scan_loop n (i + 1) b cnt value
  if hit then rest else some i

unfoldable pub scan : Bitmap → ℕ → ℕ → Bool → Option ℕ
scan b start cnt value = do
  assert (leb start b.bit_cnt)
  if leb cnt b.bit_cnt
      then scan_loop (b.bit_cnt - cnt + 1 - start) start b cnt value
      else some bitmap_error

unfoldable pub scan_and_flip : Bitmap → ℕ → ℕ → Bool → Option (ℕ × Bitmap)
scan_and_flip b start cnt value = do
  idx ← scan b start cnt value
  if idx == bitmap_error
      then some (idx, b)
      else (do b' ← set_multiple b idx cnt (not value); some (idx, b'))

-- `storage` is what the first `malloc` and that of the words return: `none` is a null pointer.
-- The words of a fresh block are arbitrary. `malloc (0)` may be null.
unfoldable pub create : ℕ → Bool → Option (List ℕ) → Option (Option Bitmap)
create bit_cnt header none =
    if header && bit_cnt == 0
    then (do b ← set_all (record { bit_cnt = bit_cnt; bits = [] }) false; some (some b))
    else some none
create bit_cnt header (some words) =
    if header
    then (do b ← set_all (record { bit_cnt = bit_cnt; bits = words }) false; some (some b))
    else some none
