-- ===== src/Synch.antt =====
-- PintOS/src/threads/synch.c: semaphores, locks and condition variables. A call that may sleep is
-- modelled by its rounds: one goes from a test of the semaphore's value to the next, and its first
-- result is false if the caller went to sleep, so that it tests again when it runs next.
pub mod WellFormed
pub mod Down
pub mod Locks
mod Tests
use course_archive.Prelude.{
  ℕ, ◌+◌, ◌-◌, ◌%◌, ◌^◌, Bool, true, false, not, Option, none, some, List, [], ◌∷◌, ◌++◌, ◌==◌,
  if◌then◌else◌, ◌>>=◌, ◌>>◌, assert,
}
use course_archive.Thread.{Kernel, is, thread_current, thread_block, thread_unblock}

-- `struct semaphore`
pub record Semaphore : Type 0 where
  pub value : ℕ
  pub waiters : List ℕ

-- `struct lock`
pub record Lock : Type 0 where
  pub holder : Option ℕ
  pub semaphore : Semaphore

abbrev pub sema_init : ℕ → Semaphore
sema_init value = record { value = value; waiters = [] }

unfoldable pub sema_down : Kernel → Semaphore → Option (Bool × Kernel × Semaphore)
sema_down k s = do
  assert (not k.intr_context)
  if s.value == 0
      then (do
        _ ← thread_current k
        let s' = record s { waiters = s.waiters ++ (k.current ∷ []) }
        k' ← thread_block k
        some (false, k', s'))
      else some (true, k, record s { value = s.value - 1 })

abbrev pub sema_try_down : Semaphore → Bool × Semaphore
sema_try_down s = if s.value == 0 then (false, s) else (true, record s { value = s.value - 1 })

-- The first waiter, if there is one, is woken.
unfoldable pub wake : Kernel → List ℕ → Option (Kernel × List ℕ)
wake k [] = some (k, [])
wake k (t ∷ l) = do k' ← thread_unblock k t; some (k', l)

unfoldable pub sema_up : Kernel → Semaphore → Option (Kernel × Semaphore)
sema_up k s = do
  (k', l) ← wake k s.waiters
  some (k', record { value = (s.value + 1) % 2 ^ 32; waiters = l })

abbrev pub lock_init : Lock
lock_init = record { holder = none; semaphore = sema_init 1 }

unfoldable pub lock_held_by_current_thread : Kernel → Lock → Option Bool
lock_held_by_current_thread k l = do _ ← thread_current k; some (is l.holder k.current)

-- The assertion stands at the first round only; the lock is not held by one who waits for it.
unfoldable pub lock_acquire : Kernel → Lock → Option (Bool × Kernel × Lock)
lock_acquire k l = do
  assert (not k.intr_context)
  held ← lock_held_by_current_thread k l
  assert (not held)
  (got, k', s) ← sema_down k l.semaphore
  if got
      then some (true, k', record { holder = some k'.current; semaphore = s })
      else some (false, k', record l { semaphore = s })

unfoldable pub lock_try_acquire : Kernel → Lock → Option (Bool × Lock)
lock_try_acquire k l = do
  held ← lock_held_by_current_thread k l
  assert (not held)
  let (success, s) = sema_try_down l.semaphore
  some (success, record { holder = if success then some k.current else l.holder; semaphore = s })

unfoldable pub lock_release : Kernel → Lock → Option (Kernel × Lock)
lock_release k l = do
  held ← lock_held_by_current_thread k l
  assert held
  (k', s) ← sema_up k l.semaphore
  some (k', record { holder = none; semaphore = s })
