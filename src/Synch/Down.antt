-- ===== src/Synch/Down.antt =====
-- `sema_down` takes the semaphore, or puts the caller to sleep among the waiters.
use course_archive.Prelude.{
  ℕ, ◌+◌, ◌-◌, ◌≡◌, refl, sym, ◌∙◌, ap, Bool, true, false, not, ◌&&◌, Option, some, List, [], ◌∷◌,
  ◌++◌, ◌==◌, if◌then◌else◌, Returns, Bool-cases, inl, inr, arith,
}
use course_archive.Thread.{
  Thread, Kernel, is, is_ready, is_running, is_blocked, set_status, blocked, thread_block,
  thread_current,
}
use course_archive.Thread.WellFormed.{
  count, count-append, in_state, WellFormed, Keeps, Switched, blocked-running, blocked-dying,
}
use course_archive.Thread.Schedule.{Next}
use course_archive.Thread.Steps.{running-thread, block-Switched}
use course_archive.Synch.{Semaphore, sema_down}
use course_archive.Synch.WellFormed.{Waiting, Synced}

blocked-ready : (o : Option Thread) → in_state is_blocked o ≡ true → in_state is_ready o ≡ false
blocked-ready o h = ground arith

-- Who runs next was ready, or is the idle thread.
next-awake :
    {k : Kernel} {i : ℕ} (n t : ℕ)
    → WellFormed k
    → k.idle_thread ≡ some i
    → n ≡ (elim k.ready_list [ [] ↦ i | u ∷ _ ↦ u ])
    → in_state is_ready (k.threads t) ≡ false
    → is k.idle_thread t ≡ false
    → (t == n) ≡ false
next-awake {k} {i} n t w idle next b busy = go k.ready_list refl
  where
    go : (l : List ℕ) → k.ready_list ≡ l → (t == n) ≡ false
    go [] e =
        let ni : n ≡ i = next ∙ rw e refl in
        let ti : (i == t) ≡ false = rw idle at busy in ground arith
    go (u ∷ l) e =
        let nu : n ≡ u = next ∙ rw e refl in
        let q : count t (u ∷ l)
            ≡ (if in_state is_ready (k.threads t) && not (is k.idle_thread t) then 1 else 0) =
          rw e at (w.lists.queued t) in
        ground (arith, b)

-- What one round of `sema_down` does.
pub record Downed (k : Kernel) (s : Semaphore) (i : ℕ) (got : Bool) (k' : Kernel) (s' : Semaphore)
    : Type 0 where
  pub synced : Synced k' s'
  pub verdict : got ≡ not (s.value == 0)
  pub taken : got ≡ true → (k' ≡ k) × (s'.value + 1 ≡ s.value) × (s'.waiters ≡ s.waiters)
  pub slept :
      got ≡ false
      → (s'.value ≡ 0)
        × (s'.waiters ≡ s.waiters ++ (k.current ∷ []))
        × Next k i k'
        × (in_state is_blocked (k'.threads k.current) ≡ true)

down-take :
    (k : Kernel) (s : Semaphore)
    → k.intr_context ≡ false
    → (s.value == 0) ≡ false
    → sema_down k s ≡ some (true, k, record s { value = s.value - 1 })
unfolding sema_down
down-take k s outside some_left = rw (outside, some_left) refl

down-block :
    (k k' : Kernel) (s : Semaphore) (x : Thread)
    → k.threads k.current ≡ some x
    → is_running x.status ≡ true
    → k.intr_context ≡ false
    → (s.value == 0) ≡ true
    → thread_block k ≡ some k'
    → sema_down k s ≡ some (false, k', record s { waiters = s.waiters ++ (k.current ∷ []) })
unfolding sema_down thread_current
down-block k k' s x here runs outside nothing e = rw (e, nothing, here, runs, outside) refl

idle-other : (i c t : ℕ) → (i == t) ≡ true → (i == c) ≡ false → (t == c) ≡ false
idle-other i c t a b = ground arith

-- The waiters after the switch, the caller among them.
module _ {k k' : Kernel} {i : ℕ} {l : List ℕ} {x : Thread} (w : WellFormed k) (v : Waiting k l)
    (idle : k.idle_thread ≡ some i) (busy : is k.idle_thread k.current ≡ false)
    (here : k.threads k.current ≡ some x) (runs : is_running x.status ≡ true) (keeps : Keeps k k')
    (next : Next k i k') (s : Switched (set_status k k.current x blocked) k') where
  once_more :
      (t : ℕ) → count t (l ++ (k.current ∷ [])) ≡ count t l + (if t == k.current then 1 else 0)
  once_more t = count-append t l (k.current ∷ []) ∙ ground arith

  waiter-blocked :
      (t : ℕ)
      → in_state is_blocked (k.threads t) ≡ true
      → is k.idle_thread t ≡ false
      → in_state is_blocked (k'.threads t) ≡ true
  waiter-blocked t b quiet =
      let other : (t == k.current) ≡ false = sym (w.runs t) ∙ blocked-running (k.threads t) b in
      let same : k'.threads t ≡ (set_status k k.current x blocked).threads t =
        s.kept t (next-awake k'.current t w idle next (blocked-ready (k.threads t) b) quiet)
          (rw other (blocked-dying (k.threads t) b)) in
      rw (same, other) b

  unless : (t : ℕ) → is k'.idle_thread t ≡ true → (t == k.current) ≡ false
  unless t h =
      idle-other i k.current t (rw idle at (ap (λ o. is o t) (sym keeps.1) ∙ h)) (rw idle at busy)

  asleep : (t : ℕ) → count t k'.sleep_list ≡ count t k.sleep_list
  asleep t = ap (count t) s.asleep

  pub caller-blocked : in_state is_blocked (k'.threads k.current) ≡ true
  caller-blocked =
      let differs : (k.current == k'.current) ≡ false =
        next-awake k'.current k.current w idle next (ground (arith, here, runs)) busy in
      let same : k'.threads k.current ≡ (set_status k k.current x blocked).threads k.current =
        s.kept k.current differs (ground arith) in
      ap (in_state is_blocked) same ∙ ground arith

  pub after : Waiting k' (l ++ (k.current ∷ []))
  after = record {
    blocked_there = λ t. elim (Bool-cases (t == k.current)) [
      | inl a ↦ ground (arith, caller-blocked, once_more t, v.blocked_there t, here, runs, asleep t)
      | inr b ↦ elim (Bool-cases (in_state is_blocked (k.threads t))) [
        | inl there ↦ elim (Bool-cases (is k.idle_thread t)) [
          | inl quiet ↦
              ground (arith, once_more t, v.awake t quiet, w.lists.awake t quiet, asleep t)
          | inr quiet ↦
              ground (arith, once_more t, v.blocked_there t, waiter-blocked t there quiet, asleep t)
        ]
        | inr there ↦ ground (arith, once_more t, v.blocked_there t, asleep t)
      ]
    ];
    awake = λ t h.
        ground (arith, once_more t, v.awake t (ap (λ o. is o t) (sym keeps.1) ∙ h), unless t h);
  }

-- One round of `sema_down` outside an interrupt, by a thread other than the idle thread, never
-- panics and keeps scheduler and waiters well formed: if the value is positive it takes one from it
-- and goes on; if it is 0, the caller is blocked as the last of the waiters and the front of the run
-- queue (or the idle thread) runs.
pub sema_down-Downed :
    {k : Kernel} {i : ℕ} (s : Semaphore)
    → Synced k s
    → k.idle_thread ≡ some i
    → k.intr_context ≡ false
    → is k.idle_thread k.current ≡ false
    → Returns (λ (got, k', s'). Downed k s i got k' s') (sema_down k s)
sema_down-Downed {k} {i} s (w, v) idle outside busy = elim (Bool-cases (s.value == 0)) [
  | inl nothing ↦
      let (x, here, runs) = running-thread w in
      let (k', e, ((keeps, next), sw)) = block-Switched w idle here runs outside in
      (
        (false, k', record s { waiters = s.waiters ++ (k.current ∷ []) }),
        down-block k k' s x here runs outside nothing e,
        record {
          synced = (keeps.0, after w v idle busy here runs keeps next sw);
          verdict = ground arith;
          taken = λ h. absurd (ground arith);
          slept =
              λ _. (ground arith, refl, next, caller-blocked w v idle busy here runs keeps next sw);
        },
      )
  | inr some_left ↦ (
    (true, k, record s { value = s.value - 1 }),
    down-take k s outside some_left,
    record {
      synced = (w, v);
      verdict = ground arith;
      taken = λ _. (refl, ground arith, refl);
      slept = λ h. absurd (ground arith);
    },
  )
]
