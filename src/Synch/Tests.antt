-- ===== src/Synch/Tests.antt =====
-- A semaphore with one waiter, a lock that is held, and the theorems there.
use course_archive.Prelude.{◌≡◌, refl, none, some, [], ◌∷◌, Returns, arith}
use course_archive.Synch.{Semaphore, Lock, sema_down, sema_up, lock_acquire, lock_release}
use course_archive.Synch.WellFormed.{Waiting, Upped, sema_up-Upped}
use course_archive.Synch.Down.{Downed, sema_down-Downed}
use course_archive.Synch.Locks.{Locked, Acquired, lock_acquire-Acquired, lock_release-Upped}
use course_archive.Thread.Tests.{waiting, waiting-WellFormed}

-- Page 4 waits for it.
abbrev awaited : Semaphore
awaited = record { value = 0; waiters = 4 ∷ [] }

awaited-Waiting : Waiting waiting (4 ∷ [])
awaited-Waiting = record { blocked_there = λ t. ground arith; awake = λ t h. ground arith }

-- Page 3 holds the first lock, and page 2, the current thread, the second.
abbrev theirs : Lock
theirs = record { holder = some 3; semaphore = awaited }

abbrev ours : Lock
ours = record { holder = some 2; semaphore = awaited }

sema_up-Upped_example : Returns (λ (k', s'). Upped waiting awaited k' s') (sema_up waiting awaited)
sema_up-Upped_example = sema_up-Upped awaited (waiting-WellFormed, awaited-Waiting) (omega arith)

sema_down-Downed_example :
    Returns (λ (got, k', s'). Downed waiting awaited 1 got k' s') (sema_down waiting awaited)
sema_down-Downed_example =
    sema_down-Downed awaited (waiting-WellFormed, awaited-Waiting) refl refl refl

theirs-Locked : Locked waiting theirs
theirs-Locked = record { synced = (waiting-WellFormed, awaited-Waiting); binary = refl }

ours-Locked : Locked waiting ours
ours-Locked = record { synced = (waiting-WellFormed, awaited-Waiting); binary = refl }

lock_acquire-Acquired_example :
    Returns (λ (got, k', l'). Acquired waiting theirs 1 got k' l') (lock_acquire waiting theirs)
lock_acquire-Acquired_example = lock_acquire-Acquired theirs theirs-Locked refl refl refl refl

lock_release-Upped_example :
    Returns
      (λ (k', l'). Locked k' l' × (l'.holder ≡ none) × Upped waiting awaited k' l'.semaphore)
      (lock_release waiting ours)
lock_release-Upped_example = lock_release-Upped ours ours-Locked refl
