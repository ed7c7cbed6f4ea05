-- ===== src/Thread.antt =====
-- PintOS/src/threads/thread.c: kernel threads and the scheduler. Interrupts are off in each function
-- here, from its entry or from its `intr_disable` on, so that it is one step; `thread_create` is one
-- too, and `tid_lock` is free when it is called. A thread is named by the address of its page. Stack
-- overflow is left out: `is_thread` holds of every page that has a thread, and of no other.
pub mod WellFormed
pub mod Schedule
pub mod Steps
pub mod Start
pub mod Tests
use course_archive.Prelude.{
  ℕ, zero, suc, ◌+◌, ◌%◌, ◌^◌, Bool, true, false, not, ◌&&◌, ◌||◌, Option, none, some, List, [],
  ◌∷◌, ◌++◌, ◌==◌, ltb, leb, if◌then◌else◌, take, ◌>>=◌, ◌>>◌, assert,
}

-- `enum thread_status`
pub data Status : Type 0 where
  running ready blocked dying : Status

-- `struct thread`, without its saved stack and the fields of userprog/process.c.
pub record Thread : Type 0 where
  pub tid : ℕ
  pub status : Status
  pub name : List ℕ
  pub priority : ℕ
  pub ticks : ℕ
  pub has_pagedir : Bool

-- The globals of thread.c, with `ticks` and `sleep_list` of timer.c. `current` is what the stack
-- pointer shows; `intr_context` and `yield_on_return` are those of interrupt.c.
pub record Kernel : Type 0 where
  pub threads : ℕ → Option Thread
  pub ready_list : List ℕ
  pub all_list : List ℕ
  pub sleep_list : List ℕ
  pub current : ℕ
  pub idle_thread : Option ℕ
  pub initial_thread : ℕ
  pub next_tid : ℕ
  pub idle_ticks : ℕ
  pub kernel_ticks : ℕ
  pub user_ticks : ℕ
  pub thread_ticks : ℕ
  pub ticks : ℕ
  pub intr_context : Bool
  pub yield_on_return : Bool

abbrev pub time_slice : ℕ
time_slice = 4

abbrev pub pri_max : ℕ
pri_max = 63

abbrev pub is_running : Status → Bool
is_running running = true
is_running _ = false

abbrev pub is_ready : Status → Bool
is_ready ready = true
is_ready _ = false

abbrev pub is_blocked : Status → Bool
is_blocked blocked = true
is_blocked _ = false

abbrev pub is_dying : Status → Bool
is_dying dying = true
is_dying _ = false

-- The threads after a write to the page `t`.
abbrev pub store : (ℕ → Option Thread) → ℕ → Option Thread → ℕ → Option Thread
store threads t x s = if s == t then x else threads s

-- A null pointer is no thread.
abbrev pub is : Option ℕ → ℕ → Bool
is none t = false
is (some i) t = i == t

-- list_remove on a list of threads.
abbrev pub remove : ℕ → List ℕ → List ℕ
remove t [] = []
remove t (s ∷ l) = if s == t then l else s ∷ remove t l

abbrev pub set_status : Kernel → ℕ → Thread → Status → Kernel
set_status k t x s = record k { threads = store k.threads t (some (record x { status = s })) }

unfoldable pub thread_current : Kernel → Option Thread
thread_current k = do x ← k.threads k.current; assert (is_running x.status); some x

unfoldable pub thread_unblock : Kernel → ℕ → Option Kernel
thread_unblock k t = do
  x ← k.threads t
  assert (is_blocked x.status)
  some (set_status (record k { ready_list = k.ready_list ++ (t ∷ []) }) t x ready)

-- The next thread, and the run queue without it.
abbrev pub next_thread_to_run : List ℕ → Option ℕ → Option ℕ × List ℕ
next_thread_to_run [] idle = (idle, [])
next_thread_to_run (t ∷ l) idle = (some t, l)

-- Whether the thread that was switched from is to be destroyed.
abbrev pub destroys : Kernel → Option ℕ → Bool
destroys k none = false
destroys k (some p) = elim (k.threads p) [
  | none ↦ false
  | some x ↦ is_dying x.status && not (p == k.initial_thread)
]

-- palloc_free_page on a thread's page
abbrev pub free_page : Kernel → Option ℕ → Kernel
free_page k none = k
free_page k (some p) = record k { threads = store k.threads p none }

-- process_activate, which loads a page table, is left out.
unfoldable pub thread_schedule_tail : Kernel → Option ℕ → Option Kernel
thread_schedule_tail k prev = do
  x ← k.threads k.current
  let k' = record (set_status k k.current x running) { thread_ticks = 0 }
  if destroys k' prev
      then (assert (not (is prev k'.current)) >> some (free_page k' prev))
      else some k'

-- `switch_threads` makes `next` the running thread, which goes on in `thread_schedule_tail`.
unfoldable pub schedule : Kernel → Option Kernel
schedule k = do
  cur ← k.threads k.current
  let (next, queue) = next_thread_to_run k.ready_list k.idle_thread
  assert (not (is_running cur.status))
  n ← next
  x ← k.threads n
  thread_schedule_tail (record k { ready_list = queue; current = n })
      (if k.current == n then none else some k.current)

unfoldable pub thread_block : Kernel → Option Kernel
thread_block k = do
  assert (not k.intr_context)
  x ← thread_current k
  schedule (set_status k k.current x blocked)

unfoldable pub thread_yield : Kernel → Option Kernel
thread_yield k = do
  x ← thread_current k
  assert (not k.intr_context)
  let queue = if is k.idle_thread k.current then k.ready_list else k.ready_list ++ (k.current ∷ [])
  schedule (set_status (record k { ready_list = queue }) k.current x ready)

-- What `thread_exit` does after `process_exit`, from `intr_disable` on.
unfoldable pub exit_tail : Kernel → Option Kernel
exit_tail k = do
  x ← thread_current k
  schedule (set_status (record k { all_list = remove k.current k.all_list }) k.current x dying)

-- A name is cut to the 15 bytes before the terminator.
abbrev pub init_thread : Kernel → ℕ → List ℕ → ℕ → Option Kernel
init_thread k t name priority = do
  assert (leb priority pri_max)
  some (record k {
    threads = store k.threads t (
        some (record {
          tid = 0;
          status = blocked;
          name = take 15 name;
          priority = priority;
          ticks = 0;
          has_pagedir = false;
        }));
    all_list = k.all_list ++ (t ∷ []);
  })

-- `lock_acquire` of the free `tid_lock` asserts the two conditions; it and `lock_release`, which finds
-- no waiter, leave the lock free.
unfoldable pub allocate_tid : Kernel → Option (ℕ × Kernel)
allocate_tid k = do
  assert (not k.intr_context)
  _ ← thread_current k
  some (k.next_tid, record k { next_tid = k.next_tid + 1 })

-- `t->tid = tid`
abbrev pub set_tid : Kernel → ℕ → ℕ → Option Kernel
set_tid k t tid = do
  x ← k.threads t
  some (record k { threads = store k.threads t (some (record x { tid = tid })) })

-- What follows the allocation of the page, in `thread_create`.
unfoldable pub create_on : Kernel → List ℕ → ℕ → Option ℕ → Option (Option ℕ × Kernel)
create_on k name priority none = some (none, k)
create_on k name priority (some t) = do
  k ← init_thread k t name priority
  (tid, k) ← allocate_tid k
  k ← set_tid k t tid
  k ← thread_unblock k t
  some (some tid, k)

-- The last argument is what `palloc_get_page` returns, and `function` the address of the code, of
-- which only the comparison with NULL matters. The first result is the identifier, or TID_ERROR.
unfoldable pub thread_create : Kernel → List ℕ → ℕ → ℕ → Option ℕ → Option (Option ℕ × Kernel)
thread_create k name priority function page = do
  assert (not (function == 0))
  create_on k name priority page

-- intr_yield_on_return, of interrupt.c
abbrev pub intr_yield_on_return : Kernel → Option Kernel
intr_yield_on_return k = do assert k.intr_context; some (record k { yield_on_return = true })

unfoldable pub thread_tick : Kernel → Option Kernel
thread_tick k = do
  x ← thread_current k
  let k' =
      if is k.idle_thread k.current
      then record k { idle_ticks = k.idle_ticks + 1 }
      else (if x.has_pagedir
          then record k { user_ticks = k.user_ticks + 1 }
          else record k { kernel_ticks = k.kernel_ticks + 1 })
  let k'' = record k' { thread_ticks = k.thread_ticks + 1 }
  if leb time_slice (k.thread_ticks + 1) then intr_yield_on_return k'' else some k''

unfoldable pub thread_set_priority : Kernel → ℕ → Option Kernel
thread_set_priority k new_priority = do
  x ← thread_current k
  some (record k {
    threads = store k.threads k.current (some (record x { priority = new_priority }));
  })

unfoldable pub thread_get_priority : Kernel → Option ℕ
thread_get_priority k = do x ← thread_current k; some x.priority
