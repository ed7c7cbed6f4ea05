-- ===== src/Timer.antt =====
-- PintOS/src/devices/timer.c: sleeping threads and the timer interrupt. As in `Thread`, each
-- function is one step: the interrupt level at the call, where the code asserts it to be on, is an
-- argument. A negative argument of `timer_sleep` does what 0 does, and has no name here.
pub mod Order
pub mod Wake
pub mod Sleep
mod Tests
use course_archive.Prelude.{
  ℕ, ◌+◌, ◌-◌, Bool, Option, none, some, List, [], ◌∷◌, ◌==◌, ltb, if◌then◌else◌, ◌>>=◌, ◌>>◌,
  assert,
}
use course_archive.Thread.{
  Thread, Kernel, store, thread_current, thread_block, thread_unblock, thread_tick,
}

-- The `ticks` member that `list_entry` reaches.
abbrev pub wake_time : (ℕ → Option Thread) → ℕ → ℕ
wake_time threads t = elim (threads t) [ none ↦ 0 | some x ↦ x.ticks ]

-- cmp_ticks
abbrev pub cmp_ticks : (ℕ → Option Thread) → ℕ → ℕ → Bool
cmp_ticks threads a b = ltb (wake_time threads a) (wake_time threads b)

-- list_insert_ordered, for a `less` on threads: before the first element that is greater.
unfoldable pub list_insert_ordered : (ℕ → ℕ → Bool) → ℕ → List ℕ → List ℕ
list_insert_ordered less t [] = t ∷ []
list_insert_ordered less t (s ∷ l) =
    if less t s then t ∷ s ∷ l else s ∷ list_insert_ordered less t l

abbrev pub timer_ticks : Kernel → ℕ
timer_ticks k = k.ticks

-- `since` is a time in the past.
abbrev pub timer_elapsed : Kernel → ℕ → ℕ
timer_elapsed k since = timer_ticks k - since

-- The current thread, in the list of sleepers until `k.ticks + n`.
abbrev pub set_alarm : Kernel → ℕ → Thread → Kernel
set_alarm k n x =
    let threads = store k.threads k.current (some (record x { ticks = timer_ticks k + n })) in
    record k {
      threads = threads;
      sleep_list = list_insert_ordered (cmp_ticks threads) k.current k.sleep_list;
    }

-- `intr_on` is whether interrupts are on when it is called; from `intr_disable` on they are off.
unfoldable pub timer_sleep : Bool → Kernel → ℕ → Option Kernel
timer_sleep intr_on k n = do
  assert intr_on
  if n == 0 then some k else (do x ← thread_current k; thread_block (set_alarm k n x))

-- `while (e != list_end (&sleep_list))`: the list is `sleep_list`, whose front is looked at.
unfoldable pub wake_loop : List ℕ → Kernel → Option Kernel
wake_loop [] k = some k
wake_loop (t ∷ l) k = do
  x ← k.threads t
  let rest = (do k' ← thread_unblock (record k { sleep_list = l }) t; wake_loop l k')
  if ltb k.ticks x.ticks then some k else rest

unfoldable pub timer_interrupt : Kernel → Option Kernel
timer_interrupt k = do
  k' ← thread_tick (record k { ticks = k.ticks + 1 })
  wake_loop k'.sleep_list k'
