-- ===== src/Synch/Locks.antt =====
-- A lock has at most one holder, and only the holder gives it up.
use course_archive.Prelude.{
  ℕ, ◌≡◌, refl, sym, ◌∙◌, ap, Bool, true, false, Option, none, some, [], ◌∷◌, ◌++◌, if◌then◌else◌,
  Returns, arith,
}
use course_archive.Thread.{Kernel, is, is_blocked, thread_current}
use course_archive.Thread.WellFormed.{in_state, WellFormed}
use course_archive.Thread.Schedule.{Next}
use course_archive.Thread.Steps.{running-thread}
use course_archive.Synch.{
  Semaphore, Lock, sema_down, sema_up, lock_acquire, lock_release, lock_held_by_current_thread,
}
use course_archive.Synch.WellFormed.{Synced, Upped, sema_up-Upped}
use course_archive.Synch.Down.{Downed, sema_down-Downed}

-- The semaphore of a lock is 1 exactly as long as no thread holds it.
pub record Locked (k : Kernel) (l : Lock) : Type 0 where
  pub synced : Synced k l.semaphore
  pub binary : ◌≡◌ {A = ℕ} l.semaphore.value (elim l.holder [ none ↦ 1 | some _ ↦ 0 ])

held-is :
    (k : Kernel) (l : Lock)
    → WellFormed k
    → lock_held_by_current_thread k l ≡ some (is l.holder k.current)
unfolding lock_held_by_current_thread thread_current
held-is k l w = let (x, here, runs) = running-thread w in rw (here, runs) refl

acquire-down :
    (k k' : Kernel) (l : Lock) (got : Bool) (s : Semaphore)
    → WellFormed k
    → is l.holder k.current ≡ false
    → sema_down k l.semaphore ≡ some (got, k', s)
    → k.intr_context ≡ false
    → lock_acquire k l ≡ (
        if got
        then some (true, k', record { holder = some k'.current; semaphore = s })
        else some (false, k', record l { semaphore = s }))
unfolding lock_acquire
acquire-down k k' l got s w other e outside = rw (held-is k l w, other, e, outside) refl

-- What one round of `lock_acquire` does.
pub record Acquired (k : Kernel) (l : Lock) (i : ℕ) (got : Bool) (k' : Kernel) (l' : Lock)
    : Type 0 where
  pub locked : Locked k' l'
  pub free : l.holder ≡ none → (got ≡ true) × (k' ≡ k) × (l'.holder ≡ some k.current)
  pub taken :
      (h : ℕ)
      → l.holder ≡ some h
      → (got ≡ false)
        × (l'.holder ≡ some h)
        × (l'.semaphore.waiters ≡ l.semaphore.waiters ++ (k.current ∷ []))
        × Next k i k'
        × (in_state is_blocked (k'.threads k.current) ≡ true)

-- One round of `lock_acquire` by a thread that does not hold the lock, outside an interrupt and
-- not in the idle thread, never panics, and a lock has never two holders: if nobody holds it, the
-- caller does at once; if another thread does, it goes on to hold it, and the caller is blocked as
-- the last of the waiters.
pub lock_acquire-Acquired :
    {k : Kernel} {i : ℕ} (l : Lock)
    → Locked k l
    → k.idle_thread ≡ some i
    → k.intr_context ≡ false
    → is k.idle_thread k.current ≡ false
    → is l.holder k.current ≡ false
    → Returns (λ (got, k', l'). Acquired k l i got k' l') (lock_acquire k l)
lock_acquire-Acquired {k} {i} l ok idle outside busy other =
    let ((got, k', s), e, d) = sema_down-Downed l.semaphore ok.synced idle outside busy in
    let run = acquire-down k k' l got s ok.synced.0 other e outside in
    go l.holder refl got k' s d run
  where
    go :
        (o : Option ℕ)
        → l.holder ≡ o
        → (got : Bool) (k' : Kernel) (s : Semaphore) → Downed k l.semaphore i got k' s
        → lock_acquire k l ≡ (
            if got
            then some (true, k', record { holder = some k'.current; semaphore = s })
            else some (false, k', record l { semaphore = s }))
        → Returns (λ (got, k', l'). Acquired k l i got k' l') (lock_acquire k l)
    go none e true k' s d run =
        let (same, less, _) = d.taken refl in
        (
          (true, k', record { holder = some k'.current; semaphore = s }),
          run,
          record {
            locked = record { synced = d.synced; binary = ground (arith, less, rw e at ok.binary) };
            free = λ _. (refl, same, ap (λ (m : Kernel). some m.current) same);
            taken = λ h eh. absurd (cc (sym e ∙ eh));
          },
        )
    go none e false k' s d run = absurd (ground (arith, d.verdict, rw e at ok.binary))
    go (some h) e true k' s d run = absurd (ground (arith, d.verdict, rw e at ok.binary))
    go (some h) e false k' s d run =
        let (zero_left, waiters, next, b) = d.slept refl in
        (
          (false, k', record l { semaphore = s }),
          run,
          record {
            locked = record { synced = d.synced; binary = zero_left ∙ rw e refl };
            free = λ en. absurd (cc (sym e ∙ en));
            taken = λ u eu. (refl, eu, waiters, next, b);
          },
        )

release-up :
    (k k' : Kernel) (l : Lock) (s : Semaphore)
    → WellFormed k
    → is l.holder k.current ≡ true
    → sema_up k l.semaphore ≡ some (k', s)
    → lock_release k l ≡ some (k', record { holder = none; semaphore = s })
unfolding lock_release
release-up k k' l s w mine e = rw (held-is k l w, mine, e) refl

-- `lock_release` by the holder never panics: afterwards nobody holds the lock, and the thread that
-- has waited longest, if any, is woken, as by `sema_up`.
pub lock_release-Upped :
    {k : Kernel} (l : Lock)
    → Locked k l
    → l.holder ≡ some k.current
    → Returns
        (λ (k', l'). Locked k' l' × (l'.holder ≡ none) × Upped k l.semaphore k' l'.semaphore)
        (lock_release k l)
lock_release-Upped {k} l ok mine =
    let zero_left : l.semaphore.value ≡ 0 = rw mine at ok.binary in
    let ((k', s), e, u) = sema_up-Upped l.semaphore ok.synced (omega (arith, zero_left)) in
    (
      (k', record { holder = none; semaphore = s }),
      release-up k k' l s ok.synced.0 (rw mine (ground arith)) e,
      (record { synced = u.synced; binary = omega (arith, u.value, zero_left) }, refl, u),
    )

-- `lock_release` by a thread that does not hold the lock fails the assertion.
pub lock_release-none :
    (k : Kernel) (l : Lock) → WellFormed k → is l.holder k.current ≡ false → lock_release k l ≡ none
unfolding lock_release
lock_release-none k l w other = rw (held-is k l w, other) refl
