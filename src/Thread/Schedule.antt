-- ===== src/Thread/Schedule.antt =====
-- `schedule` never fails when there is an idle thread, and makes the front of the run queue run.
use course_archive.Prelude.{
  ℕ, ◌≡◌, refl, ◌∙◌, Bool, true, false, not, ◌&&◌, ◌≤◌, Option, none, some, List, [], ◌∷◌, ◌==◌,
  if◌then◌else◌, Returns, Bool-cases, inl, inr, arith, ◌>>◌, assert,
}
use course_archive.Thread.{
  Thread, Kernel, is_running, is_ready, is_blocked, is_dying, is, next_thread_to_run, destroys,
  free_page, thread_schedule_tail, schedule,
}
use course_archive.Thread.WellFormed.{
  count, in_state, WellFormed, Leaving, Keeps, switched, switched-WellFormed, Switched,
  switched-Switched, rest_of,
}

-- Destroying a dying thread that is not the current one.
free_page-WellFormed :
    {k : Kernel} (p : ℕ) {y : Thread}
    → WellFormed k
    → k.threads p ≡ some y
    → is_dying y.status ≡ true
    → (p == k.current) ≡ false
    → WellFormed (free_page k (some p))
free_page-WellFormed {k} p {y} w e d ne = record {
  lists = record {
    queued = λ t. ground (arith, w.lists.queued t);
    sleeping = λ t. ground (arith, w.lists.sleeping t);
    awake = λ t. w.lists.awake t;
    listed = λ t. ground (arith, w.lists.listed t);
    idle_alive = λ t h. ground (arith, w.lists.idle_alive t h);
  };
  runs = λ t. ground (arith, w.runs t);
}

-- `destroys` is true of a dying thread only.
destroys-dying :
    (k : Kernel) (p : ℕ)
    → destroys k (some p) ≡ true
    → (y : Thread) × (k.threads p ≡ some y) × (is_dying y.status ≡ true)
destroys-dying k p h = go (k.threads p) refl
  where
    go :
        (o : Option Thread)
        → k.threads p ≡ o
        → (y : Thread) × (k.threads p ≡ some y) × (is_dying y.status ≡ true)
    go none e = cc (rw (e, destroys) at h)
    go (some y) e = (y, e, ground (arith, rw (e, destroys) at h))

-- The end of a switch from `k0`, after which the current thread runs.
finish :
    (k0 k : Kernel) (prev : Option ℕ)
    → WellFormed k
    → Switched k0 k
    → is prev k.current ≡ false
    → Returns
        (λ k'. (Keeps k k' × (k'.current ≡ k.current)) × Switched k0 k')
        (if destroys k prev
          then (assert (not (is prev k.current)) >> some (free_page k prev))
          else some k)
finish k0 k none w s ne = (k, refl, (((w, refl), refl), s))
finish k0 k (some p) w s ne = elim (Bool-cases (destroys k (some p))) [
  | inl d ↦
      let (y, e, dies) = destroys-dying k p d in
      rw (d, ne)
        (
          free_page k (some p),
          refl,
          (
            ((free_page-WellFormed p w e dies ne, refl), refl),
            record {
              kept = λ t other lives. ground (arith, s.kept t other lives);
              dead = λ t h. ground (arith, s.dead t h);
              asleep = s.asleep;
              now = s.now;
              queue = s.queue;
            },
          ),
        )
  | inr d ↦ rw d (k, refl, (((w, refl), refl), s))
]

-- The front of a queue leaves it.
front-rest :
    (n t : ℕ) (l : List ℕ) (a b : Bool)
    → count t (n ∷ l) ≡ (if a && b then 1 else 0)
    → count t l ≡ (if a && b && not (t == n) then 1 else 0)
front-rest n t l true true h = ground arith
front-rest n t l true false h = ground arith
front-rest n t l false b h = ground arith

-- One switch, to the thread `n` that the run queue gives.
schedule-to :
    (k : Kernel) (x y : Thread) (n : ℕ) (queue : List ℕ)
    → k.threads k.current ≡ some x
    → is_running x.status ≡ false
    → next_thread_to_run k.ready_list k.idle_thread ≡ (some n, queue)
    → k.threads n ≡ some y
    → schedule k
      ≡ thread_schedule_tail
          (record k { ready_list = queue; current = n })
          (if k.current == n then none else some k.current)
unfolding schedule
schedule-to k x y n queue here stopped next at = rw (here, stopped, next, at) refl

-- Nothing leaves an empty queue.
empty-rest :
    (t : ℕ) (a b c : Bool)
    → count t [] ≡ (if a && b then 1 else 0)
    → count t [] ≡ (if a && b && c then 1 else 0)
empty-rest t true true c h = absurd (ground arith)
empty-rest t true false c h = refl
empty-rest t false b c h = refl

-- The front of the run queue is ready,
front-ready :
    (n : ℕ) (l : List ℕ) (a b : Bool) → count n (n ∷ l) ≡ (if a && b then 1 else 0) → a ≡ true
front-ready n l true b h = refl
front-ready n l false b h = absurd (ground arith)

-- so that it is not blocked, nor dying.
ready-alive :
    (o : Option Thread) → in_state is_ready o ≡ true → in_state (λ s. not (is_dying s)) o ≡ true
ready-alive o h = ground arith

ready-awake :
    (o : Option Thread) (c : ℕ)
    → in_state is_ready o ≡ true
    → c ≤ (if in_state is_blocked o then 1 else 0)
    → c ≡ 0
ready-awake o c h le = ground arith

-- Who runs next: the front of the run queue, or the idle thread.
abbrev pub Next : Kernel → ℕ → Kernel → Type 0
Next k i k' = k'.current ≡ (elim k.ready_list [ [] ↦ i | t ∷ _ ↦ t ])

module _ {k : Kernel} {i : ℕ} (v : Leaving k i) where
  alive-thread :
      (t : ℕ)
      → in_state (λ s. not (is_dying s)) (k.threads t) ≡ true
      → (x : Thread) × (k.threads t ≡ some x) × (is_dying x.status ≡ false)
  alive-thread t h = go (k.threads t) refl
    where
      go :
          (o : Option Thread)
          → k.threads t ≡ o
          → (x : Thread) × (k.threads t ≡ some x) × (is_dying x.status ≡ false)
      go none e = cc (rw e at h)
      go (some x) e = (x, e, ground (arith, rw e at h))

  -- The switch to `n`, once it is known to be a thread.
  switch_to :
      (n : ℕ) (queue : List ℕ) {x : Thread}
      → k.threads n ≡ some x
      → is_dying x.status ≡ false
      → ((t : ℕ)
          → count t queue ≡ (
              if in_state is_ready (k.threads t) && not (is k.idle_thread t) && not (t == n)
              then 1
              else 0))
      → count n k.sleep_list ≡ 0
      → queue ≡ rest_of k.ready_list
      → Returns
          (λ k'. (Keeps k k' × (k'.current ≡ n)) × Switched k k')
          (thread_schedule_tail
            (record k { ready_list = queue; current = n })
            (if k.current == n then none else some k.current))
  unfolding thread_schedule_tail
  switch_to n queue {x} here lives rest no_sleep left =
      let w = switched-WellFormed v n queue {x = x} here lives rest no_sleep in
      let s = switched-Switched v n queue {x = x} here lives rest no_sleep left in
      rw here (
        finish k (switched k n queue x) (if k.current == n then none else some k.current) w s
          (ground arith))

  -- Leaving its thread, `schedule` switches to the front of the run queue, or to the idle thread if
  -- that is empty, and leaves the kernel well formed.
  pub schedule-Next : Returns (λ k'. (Keeps k k' × Next k i k') × Switched k k') (schedule k)
  unfolding schedule
  schedule-Next = go k.ready_list refl
    where
      x : Thread
      x = v.present.0

      here : k.threads k.current ≡ some x
      here = v.present.1

      stopped : is_running x.status ≡ false
      stopped = ground (arith, v.stopped k.current)

      idle_is : is k.idle_thread i ≡ true
      idle_is = rw (v.idle) (ground arith)

      go :
          (l : List ℕ)
          → k.ready_list ≡ l
          → Returns (λ k'. (Keeps k k' × Next k i k') × Switched k k') (schedule k)
      go [] e =
          let (y, at, lives) = alive-thread i (v.lists.idle_alive i idle_is) in
          let (k', run, ((keeps, next), kept)) =
            switch_to i [] at lives
              (λ t.
                empty-rest t (in_state is_ready (k.threads t)) (not (is k.idle_thread t))
                  (not (t == i)) (rw e at (v.lists.queued t)))
              (v.lists.awake i idle_is) (rw e refl) in
          (
            k',
            schedule-to k x y i [] here stopped (rw (e, v.idle) refl) at ∙ run,
            ((keeps, next ∙ rw e refl), kept),
          )
      go (n ∷ l) e =
          let first : in_state is_ready (k.threads n) ≡ true =
            front-ready n l (in_state is_ready (k.threads n)) (not (is k.idle_thread n))
              (rw e at (v.lists.queued n)) in
          let (y, at, lives) = alive-thread n (ready-alive (k.threads n) first) in
          let (k', run, ((keeps, next), kept)) =
            switch_to n l at lives
              (λ t.
                front-rest n t l (in_state is_ready (k.threads t)) (not (is k.idle_thread t))
                  (rw e at (v.lists.queued t)))
              (ready-awake (k.threads n) _ first (v.lists.sleeping n)) (rw e refl) in
          (
            k',
            schedule-to k x y n l here stopped (rw e refl) at ∙ run,
            ((keeps, next ∙ rw e refl), kept),
          )
