-- ===== src/LinkedList.antt =====
-- PintOS/src/lib/kernel/list.c: doubly linked lists. A list element and a list are named by their
-- addresses, 0 is the null pointer, and memory is the two links of every address that holds an
-- element. `less` stands for the comparison function with its auxiliary data.

pub mod Chain
pub mod Ordered
pub mod Shape
pub mod Insert
pub mod Remove
pub mod Sequence
pub mod Walk
pub mod Reverse
pub mod Turn
pub mod Run
mod Tests
use course_archive.Prelude.{
  ℕ, zero, suc, ◌+◌, ◌%◌, ◌^◌, Bool, true, false, not, ◌&&◌, ◌||◌, Option, none, some, ◌==◌, ltb,
  if◌then◌else◌, ◌>>=◌, ◌>>◌, assert,
}

-- `struct list_elem`, at every address.
pub record Links : Type 0 where
  pub prev : ℕ → ℕ
  pub next : ℕ → ℕ

-- `elem->prev = value`, `elem->next = value`
abbrev pub set_prev : Links → ℕ → ℕ → Links
set_prev m elem value = record m { prev = λ p. if p == elem then value else m.prev p }

abbrev pub set_next : Links → ℕ → ℕ → Links
set_next m elem value = record m { next = λ p. if p == elem then value else m.next p }

-- `&list->head`, `&list->tail`
abbrev pub head_of : ℕ → ℕ
head_of list = list

abbrev pub tail_of : ℕ → ℕ
tail_of list = list + 8

-- Each loop over a list visits an address once.
abbrev pub max_elems : ℕ
max_elems = 2 ^ 32

abbrev pub is_head : Links → ℕ → Bool
is_head m elem = not (elem == 0) && ((m.prev elem == 0) && not (m.next elem == 0))

abbrev pub is_interior : Links → ℕ → Bool
is_interior m elem = not (elem == 0) && (not (m.prev elem == 0) && not (m.next elem == 0))

abbrev pub is_tail : Links → ℕ → Bool
is_tail m elem = not (elem == 0) && (not (m.prev elem == 0) && (m.next elem == 0))

unfoldable pub list_init : Links → ℕ → Option Links
list_init m list = do
  assert (not (list == 0))
  let m1 = set_prev m (head_of list) 0
  let m2 = set_next m1 (head_of list) (tail_of list)
  let m3 = set_prev m2 (tail_of list) (head_of list)
  some (set_next m3 (tail_of list) 0)

abbrev pub list_begin : Links → ℕ → Option ℕ
list_begin m list = do assert (not (list == 0)); some (m.next (head_of list))

unfoldable pub list_next : Links → ℕ → Option ℕ
list_next m elem = do assert (is_head m elem || is_interior m elem); some (m.next elem)

abbrev pub list_end : ℕ → Option ℕ
list_end list = do assert (not (list == 0)); some (tail_of list)

abbrev pub list_rbegin : Links → ℕ → Option ℕ
list_rbegin m list = do assert (not (list == 0)); some (m.prev (tail_of list))

unfoldable pub list_prev : Links → ℕ → Option ℕ
list_prev m elem = do assert (is_interior m elem || is_tail m elem); some (m.prev elem)

abbrev pub list_rend : ℕ → Option ℕ
list_rend list = do assert (not (list == 0)); some (head_of list)

abbrev pub list_head : ℕ → Option ℕ
list_head list = list_rend list

abbrev pub list_tail : ℕ → Option ℕ
list_tail list = list_end list

-- The assertions leave no null pointer to be followed, here and in the two functions after.
unfoldable pub list_insert : Links → ℕ → ℕ → Option Links
list_insert m before elem = do
  assert (is_interior m before || is_tail m before)
  assert (not (elem == 0))
  let m1 = set_prev m elem (m.prev before)
  let m2 = set_next m1 elem before
  let m3 = set_next m2 (m2.prev before) elem
  some (set_prev m3 before elem)

unfoldable pub list_splice : Links → ℕ → ℕ → ℕ → Option Links
list_splice m before first last = do
  assert (is_interior m before || is_tail m before)
  let moved = (do
    last ← list_prev m last
    assert (is_interior m first)
    assert (is_interior m last)
    let m1 = set_next m (m.prev first) (m.next last)
    let m2 = set_prev m1 (m1.next last) (m1.prev first)
    let m3 = set_prev m2 first (m2.prev before)
    let m4 = set_next m3 last before
    let m5 = set_next m4 (m4.prev before) first
    some (set_prev m5 before last))
  if first == last then some m else moved

-- The next element comes first in the result.
unfoldable pub list_remove : Links → ℕ → Option (ℕ × Links)
list_remove m elem = do
  assert (is_interior m elem)
  let m1 = set_next m (m.prev elem) (m.next elem)
  let m2 = set_prev m1 (m1.next elem) (m1.prev elem)
  some (m2.next elem, m2)

abbrev pub push_front : Links → ℕ → ℕ → Option Links
push_front m list elem = do first ← list_begin m list; list_insert m first elem

abbrev pub push_back : Links → ℕ → ℕ → Option Links
push_back m list elem = do end ← list_end list; list_insert m end elem

abbrev pub list_empty : Links → ℕ → Option Bool
list_empty m list = do first ← list_begin m list; end ← list_end list; some (first == end)

abbrev pub list_front : Links → ℕ → Option ℕ
list_front m list = do empty ← list_empty m list; assert (not empty); some (m.next (head_of list))

abbrev pub list_back : Links → ℕ → Option ℕ
list_back m list = do empty ← list_empty m list; assert (not empty); some (m.prev (tail_of list))

-- The element that was removed comes first in the result.
abbrev pub pop_front : Links → ℕ → Option (ℕ × Links)
pop_front m list = do front ← list_front m list; (_, m) ← list_remove m front; some (front, m)

abbrev pub pop_back : Links → ℕ → Option (ℕ × Links)
pop_back m list = do back ← list_back m list; (_, m) ← list_remove m back; some (back, m)

unfoldable pub size_loop : ℕ → Links → ℕ → ℕ → ℕ → Option ℕ
size_loop zero m end e cnt = if e == end then some cnt else none
size_loop (suc fuel) m end e cnt =
    let step = (do e ← list_next m e; size_loop fuel m end e ((cnt + 1) % 2 ^ 32)) in
    if e == end then some cnt else step

abbrev pub list_size : Links → ℕ → Option ℕ
list_size m list = do
  first ← list_begin m list
  end ← list_end list
  size_loop max_elems m end first 0

-- The loop of `list_reverse` swaps the links of each element, and goes on by the new `prev`.
unfoldable pub reverse_loop : ℕ → Links → ℕ → ℕ → Option Links
reverse_loop zero m end e = if e == end then some m else none
reverse_loop (suc fuel) m end e =
    let step = (do
      assert (not (e == 0))
      let m' = set_next (set_prev m e (m.next e)) e (m.prev e)
      reverse_loop fuel m' end (m'.prev e)) in
    if e == end then some m else step

-- What comes after the loop.
unfoldable pub swap_ends : Links → ℕ → Option Links
swap_ends m list = do
  let m1 =
      set_prev (set_next m (head_of list) (m.prev (tail_of list))) (tail_of list)
        (m.next (head_of list))
  let first = m1.next (head_of list)
  let last = m1.prev (tail_of list)
  assert (not (first == 0))
  assert (not (last == 0))
  some (set_next (set_prev m1 first (m1.next last)) last (m1.prev first))

unfoldable pub list_reverse : Links → ℕ → Option Links
list_reverse m list = do
  empty ← list_empty m list
  first ← list_begin m list
  let reversed = (do m ← reverse_loop max_elems m (tail_of list) first; swap_ends m list)
  if empty then some m else reversed
