-- ===== src/Timer/Sleep.antt =====
-- `timer_sleep` puts the caller among the sleepers, in the order of their wake times.
use mathlib.Core.Path.{subst}
use course_archive.Prelude.{
  ℕ, ◌+◌, ◌≤◌, ◌≡◌, refl, sym, ◌∙◌, ap, ◌≢◌, true, false, Option, some, [], ◌∷◌, ◌==◌,
  if◌then◌else◌, Returns, Bool-cases, inl, inr, arith,
}
use course_archive.Thread.{
  Thread, Kernel, blocked, is_running, is_blocked, is, store, set_status, schedule, thread_current,
  thread_block,
}
use course_archive.Thread.WellFormed.{
  count, in_state, Lists, WellFormed, Leaving, Keeps, Switched, blocked-running, blocked-dying,
}
use course_archive.Thread.Schedule.{schedule-Next}
use course_archive.Thread.Steps.{running-thread}
use course_archive.Timer.{wake_time, cmp_ticks, set_alarm, timer_sleep}
use course_archive.Timer.Order.{IsSorted, insert-IsSorted, count-insert, IsSorted-ext}

-- The caller, blocked and with its alarm set.
abbrev asleep : Kernel → ℕ → Thread → Kernel
asleep k n x = set_status (set_alarm k n x) k.current (record x { ticks = k.ticks + n }) blocked

sleep-schedule :
    (k : Kernel) (n : ℕ) (x : Thread)
    → k.threads k.current ≡ some x
    → is_running x.status ≡ true
    → k.intr_context ≡ false
    → (n == 0) ≡ false
    → (k.current == k.current) ≡ true
    → timer_sleep true k n ≡ schedule (asleep k n x)
unfolding timer_sleep thread_block thread_current
sleep-schedule k n x here runs outside some_time same =
    rw (some_time, here, runs, outside, same, runs) refl

-- What is in the list of sleepers is blocked.
sleeper-blocked :
    (o : Option Thread) (c : ℕ)
    → c ≤ (if in_state is_blocked o then 1 else 0)
    → c ≢ 0
    → in_state is_blocked o ≡ true
sleeper-blocked o c le n = ground arith

-- A sleeper keeps its record in a switch.
sleeper-kept :
    (k1 k' : Kernel) (t : ℕ)
    → Lists k1
    → WellFormed k'
    → Switched k1 k'
    → count t k'.sleep_list ≢ 0
    → k'.threads t ≡ k1.threads t
sleeper-kept k1 k' t lists w s h =
    s.kept t
      (sym (w.runs t)
        ∙ blocked-running (k'.threads t)
            (sleeper-blocked (k'.threads t) (count t k'.sleep_list) (w.lists.sleeping t) h))
      (blocked-dying (k1.threads t) (
        sleeper-blocked (k1.threads t) (count t k1.sleep_list) (lists.sleeping t)
          (λ z. h (ap (count t) s.asleep ∙ z))))

-- The threads and the list in the midst of the call.
module _ {k : Kernel} {x : Thread} (w : WellFormed k) (n : ℕ) (here : k.threads k.current ≡ some x)
    (runs : is_running x.status ≡ true) (busy : is k.idle_thread k.current ≡ false) where
  listed_once :
      (t : ℕ)
      → count t (asleep k n x).sleep_list ≡ (if t == k.current then 1 else 0) + count t k.sleep_list
  listed_once t =
      count-insert (cmp_ticks (store k.threads k.current (some (record x { ticks = k.ticks + n }))))
        t k.current k.sleep_list

  asleep-Lists : Lists (asleep k n x)
  asleep-Lists = record {
    queued = λ t. ground (arith, w.lists.queued t, here, runs);
    sleeping = λ t. ground (arith, w.lists.sleeping t, here, runs, listed_once t);
    awake = λ t h. ground (arith, w.lists.awake t h, listed_once t, busy);
    listed = λ t. ground (arith, w.lists.listed t, here, runs);
    idle_alive = λ t h. ground (arith, w.lists.idle_alive t h, here, runs);
  }

  asleep-Leaving : {i : ℕ} → k.idle_thread ≡ some i → Leaving (asleep k n x) i
  asleep-Leaving idle = record {
    lists = asleep-Lists;
    stopped = λ t. ground (arith, w.runs t);
    present = (record x { ticks = k.ticks + n; status = blocked }, ground arith);
    idle = idle;
  }

  -- The one that runs does not sleep.
  absent : (s : ℕ) → count s k.sleep_list ≢ 0 → (s == k.current) ≡ false
  absent s h =
      sym (w.runs s)
      ∙ blocked-running (k.threads s)
          (sleeper-blocked (k.threads s) (count s k.sleep_list) (w.lists.sleeping s) h)

  asleep-IsSorted :
      IsSorted (wake_time k.threads) k.sleep_list
      → IsSorted (wake_time (asleep k n x).threads) (asleep k n x).sleep_list
  asleep-IsSorted sorted =
      let set = store k.threads k.current (some (record x { ticks = k.ticks + n })) in
      let list = (asleep k n x).sleep_list in
      IsSorted-ext (wake_time set) (wake_time (asleep k n x).threads) list
        (λ s _. elim (Bool-cases (s == k.current)) [
          | inl a ↦ rw (a, wake_time) refl
          | inr a ↦ rw (a, wake_time) refl
        ])
        (insert-IsSorted (wake_time set) k.current k.sleep_list (
          IsSorted-ext (wake_time k.threads) (wake_time set) k.sleep_list
            (λ s h. rw (absent s h, wake_time) refl) sorted))

-- Where a call of `timer_sleep (n)` has led.
pub record Sleeps (k : Kernel) (n i : ℕ) (k' : Kernel) : Type 0 where
  pub keeps : Keeps k k'
  pub next : k'.current ≡ (elim k.ready_list [ [] ↦ i | t ∷ _ ↦ t ])
  pub blocked_now : in_state is_blocked (k'.threads k.current) ≡ true
  pub alarm : wake_time k'.threads k.current ≡ k.ticks + n
  pub once :
      (t : ℕ) → count t k'.sleep_list ≡ (if t == k.current then 1 else 0) + count t k.sleep_list
  pub sorted : IsSorted (wake_time k'.threads) k'.sleep_list

-- On a well-formed kernel with an idle thread, whose sleepers are in the order of their alarms,
-- `timer_sleep` of a positive number of ticks, called with interrupts on, outside an interrupt and
-- not in the idle thread, does not panic: the caller is blocked, stands once more, that is once, in
-- the list of sleepers with the alarm `n` ticks from now, the list is in the order of the alarms,
-- the front of the run queue (or the idle thread) runs, and the scheduler stays well formed.
pub timer_sleep-Sleeps :
    {k : Kernel} {i : ℕ} (n : ℕ)
    → WellFormed k
    → k.idle_thread ≡ some i
    → k.intr_context ≡ false
    → is k.idle_thread k.current ≡ false
    → (n == 0) ≡ false
    → IsSorted (wake_time k.threads) k.sleep_list
    → Returns (Sleeps k n i) (timer_sleep true k n)
timer_sleep-Sleeps {k} {i} n w idle outside busy some_time sorted =
    let (x, here, runs) = running-thread w in
    let (k', e, ((keeps, next), s)) = schedule-Next (asleep-Leaving w n here runs busy idle) in
    let w' = keeps.0 in
    let once : ((t : ℕ)
        → count t k'.sleep_list ≡ (if t == k.current then 1 else 0) + count t k.sleep_list) =
      (λ t. ap (count t) s.asleep ∙ listed_once w n here runs busy t) in
    let sleeps : ((t : ℕ) → count t k'.sleep_list ≢ 0 → in_state is_blocked (k'.threads t) ≡ true) =
      (λ t h. sleeper-blocked (k'.threads t) (count t k'.sleep_list) (w'.lists.sleeping t) h) in
    let same : ((t : ℕ) → count t k'.sleep_list ≢ 0 → k'.threads t ≡ (asleep k n x).threads t) =
      (λ t h. sleeper-kept (asleep k n x) k' t (asleep-Lists w n here runs busy) w' s h) in
    (
      k',
      sleep-schedule k n x here runs outside some_time (ground arith) ∙ e,
      record {
        keeps = keeps;
        next = next;
        blocked_now = sleeps k.current (ground (arith, once k.current));
        alarm =
            ap (λ (o : Option Thread). wake_time (λ _. o) k.current)
              (same k.current (ground (arith, once k.current)))
            ∙ ground arith;
        once = once;
        sorted =
            IsSorted-ext (wake_time (asleep k n x).threads) (wake_time k'.threads) k'.sleep_list
              (λ t h. ap (λ (o : Option Thread). wake_time (λ _. o) t) (sym (same t h)))
              (subst (IsSorted (wake_time (asleep k n x).threads)) (sym s.asleep)
                (asleep-IsSorted w n here runs busy sorted));
      },
    )
