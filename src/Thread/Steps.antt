-- ===== src/Thread/Steps.antt =====
-- How the current thread leaves the processor: block, yield and the end of exit.
use course_archive.Prelude.{
  ℕ, ◌+◌, ◌≡◌, refl, ◌∙◌, ap, true, false, not, ◌&&◌, Option, none, some, List, [], ◌∷◌, ◌++◌, ◌==◌,
  if◌then◌else◌, Returns, Bool-cases, inl, inr, arith,
}
use course_archive.Thread.{
  Status, ready, blocked, dying, Thread, Kernel, is_running, is_blocked, is_dying, is, store,
  remove, set_status, schedule, thread_current, thread_block, thread_yield, exit_tail,
}
use course_archive.Thread.WellFormed.{
  count, count-append, in_state, alive, indicator, rest_of, Lists, WellFormed, Leaving, Keeps,
  Switched,
}
use course_archive.Thread.Schedule.{Next, schedule-Next}

-- `l` without one `t`.
pub count-remove :
    (t s : ℕ) (l : List ℕ)
    → count t (remove s l) + (if (t == s) && not (count t l == 0) then 1 else 0) ≡ count t l
count-remove t s [] = ground arith
count-remove t s (u ∷ l) = ground (arith, count-remove t s l)

-- The current thread, and that it runs.
pub running-thread :
    {k : Kernel}
    → WellFormed k
    → (x : Thread) × (k.threads k.current ≡ some x) × (is_running x.status ≡ true)
running-thread {k} w = go (k.threads k.current) refl
  where
    runs : in_state is_running (k.threads k.current) ≡ true
    runs = w.runs k.current ∙ ground arith

    go :
        (o : Option Thread)
        → k.threads k.current ≡ o
        → (x : Thread) × (k.threads k.current ≡ some x) × (is_running x.status ≡ true)
    go none e = cc (rw e at runs)
    go (some x) e = (x, e, rw e at runs)

-- What each operation does before it calls `schedule`.
module _ (k : Kernel) (x : Thread) (here : k.threads k.current ≡ some x)
    (runs : is_running x.status ≡ true) where
  block-schedule :
      k.intr_context ≡ false → thread_block k ≡ schedule (set_status k k.current x blocked)
  unfolding thread_block thread_current
  block-schedule outside = rw (outside, here, runs) refl

  yield-schedule :
      k.intr_context ≡ false
      → is k.idle_thread k.current ≡ false
      → thread_yield k
        ≡ schedule (
            set_status
              (record k { ready_list = k.ready_list ++ (k.current ∷ []) })
              k.current
              x
              ready)
  unfolding thread_yield thread_current
  yield-schedule outside busy = rw (outside, here, runs, busy) refl

  exit-schedule :
      exit_tail k
      ≡ schedule
          (set_status (record k { all_list = remove k.current k.all_list }) k.current x dying)
  unfolding exit_tail thread_current
  exit-schedule = rw (here, runs) refl

module _ {k : Kernel} {i : ℕ} (w : WellFormed k) (idle : k.idle_thread ≡ some i) where
  -- The current thread takes another status, and the lists are made to fit.
  pub leave :
      (k' : Kernel) {x : Thread} (s : Status)
      → k.threads k.current ≡ some x
      → k'.current ≡ k.current
      → k'.idle_thread ≡ k.idle_thread
      → k'.threads ≡ store k.threads k.current (some (record x { status = s }))
      → is_running s ≡ false
      → Lists k'
      → Leaving k' i
  leave k' {x} s here same still threads stopped lists = record {
    lists = lists;
    stopped = λ t. ground (arith, w.runs t, ap (λ f. f t) threads);
    present = (record x { status = s }, ground (arith, ap (λ f. f k'.current) threads));
    idle = still ∙ idle;
  }

  -- A blocked thread stays so, if it is not the one that runs.
  stays :
      (f : ℕ → Option Thread) (k' : Kernel)
      → in_state is_running (k'.threads k.current) ≡ (k.current == k'.current)
      → ((k.current == k'.current) ≡ false
          → in_state is_dying (f k.current) ≡ false
          → k'.threads k.current ≡ f k.current)
      → in_state is_blocked (f k.current) ≡ true
      → in_state is_blocked (k'.threads k.current) ≡ not (k.current == k'.current)
  stays f k' runs kept here = elim (Bool-cases (k.current == k'.current)) [
    | inl same ↦ rw same (ground (arith, runs))
    | inr differ ↦ rw differ (rw (kept differ (ground arith)) here)
  ]

  -- What `thread_block` leaves alone, besides.
  pub block-Switched :
      {x : Thread}
      → k.threads k.current ≡ some x
      → is_running x.status ≡ true
      → k.intr_context ≡ false
      → Returns
          (λ k'. (Keeps k k' × Next k i k') × Switched (set_status k k.current x blocked) k')
          (thread_block k)
  block-Switched {x} here runs outside =
      let k1 = set_status k k.current x blocked in
      let lists : Lists k1 = record {
        queued = λ t. ground (arith, w.lists.queued t, here, runs);
        sleeping = λ t. ground (arith, w.lists.sleeping t, here, runs);
        awake = w.lists.awake;
        listed = λ t. ground (arith, w.lists.listed t, here, runs);
        idle_alive = λ t h. ground (arith, w.lists.idle_alive t h, here, runs);
      } in
      let (k', e, r) = schedule-Next (leave k1 blocked here refl refl refl refl lists) in
      (k', block-schedule k x here runs outside ∙ e, r)

  -- `thread_block` keeps the scheduler well formed and switches to the front of the run queue,
  -- or, if that is empty, to the idle thread; unless it goes on itself, the caller is blocked.
  pub block-Next :
      k.intr_context ≡ false
      → Returns
          (λ k'.
            Keeps k k'
            × (k'.current ≡ (elim k.ready_list [ [] ↦ i | t ∷ _ ↦ t ]))
            × (in_state is_blocked (k'.threads k.current) ≡ not (k.current == k'.current)))
          (thread_block k)
  block-Next outside =
      let (x, here, runs) = running-thread w in
      let (k', e, ((keeps, next), s)) = block-Switched here runs outside in
      (
        k',
        e,
        (
          keeps,
          next,
          stays (set_status k k.current x blocked).threads k' (keeps.0.runs k.current)
              (s.kept k.current) (ground arith),
        ),
      )

  -- `thread_yield` outside an interrupt by a thread other than the idle thread keeps the scheduler
  -- well formed, puts the thread at the end of the run queue and switches to the front, which leaves
  -- the queue; the order of the others stays.
  pub yield-Next :
      k.intr_context ≡ false
      → is k.idle_thread k.current ≡ false
      → Returns
          (λ k'.
            Keeps k k'
            × (k'.current ≡ (elim k.ready_list [ [] ↦ k.current | t ∷ _ ↦ t ]))
            × (k'.current ∷ k'.ready_list ≡ k.ready_list ++ (k.current ∷ [])))
          (thread_yield k)
  yield-Next outside busy =
      let (x, here, runs) = running-thread w in
      let queue = k.ready_list ++ (k.current ∷ []) in
      let k1 = set_status (record k { ready_list = queue }) k.current x ready in
      let lists : Lists k1 = record {
        queued = λ t.
            ground
              (arith, w.lists.queued t, here, runs, count-append t k.ready_list (k.current ∷ []));
        sleeping = λ t. ground (arith, w.lists.sleeping t, here, runs);
        awake = w.lists.awake;
        listed = λ t. ground (arith, w.lists.listed t, here, runs);
        idle_alive = λ t h. ground (arith, w.lists.idle_alive t h, here, runs);
      } in
      let (k', e, ((keeps, next), s)) =
        schedule-Next (leave k1 ready here refl refl refl refl lists) in
      (
        k',
        yield-schedule k x here runs outside busy ∙ e,
        (
          keeps,
          next ∙ front k.ready_list,
          whole k.ready_list k'.current k'.ready_list next s.queue,
        ),
      )
    where
      whole :
          (l : List ℕ) (c : ℕ) (r : List ℕ)
          → ◌≡◌ {A = ℕ} c (elim (l ++ (k.current ∷ [])) [ [] ↦ i | t ∷ _ ↦ t ])
          → r ≡ rest_of (l ++ (k.current ∷ []))
          → c ∷ r ≡ l ++ (k.current ∷ [])
      whole [] c r a b = rw (a, b) refl
      whole (t ∷ l) c r a b = rw (a, b) refl

      front :
          (l : List ℕ)
          → ◌≡◌ {A = ℕ}
              (elim (l ++ (k.current ∷ [])) [ [] ↦ i | t ∷ _ ↦ t ])
              (elim l [ [] ↦ k.current | t ∷ _ ↦ t ])
      front [] = refl
      front (t ∷ l) = refl

  -- What `thread_exit` does after `process_exit`, in a thread other than the idle thread, keeps the
  -- scheduler well formed, switches to the front of the run queue as it is then, which leaves
  -- the queue, or to the idle thread, and leaves the thread dead and off the list of all threads.
  pub exit-Next :
      is k.idle_thread k.current ≡ false
      → Returns
          (λ k'.
            Keeps k k'
            × (k'.current ≡ (elim k.ready_list [ [] ↦ i | t ∷ _ ↦ t ]))
            × (k'.ready_list ≡ rest_of k.ready_list)
            × (in_state alive (k'.threads k.current) ≡ false)
            × (count k.current k'.all_list ≡ 0))
          (exit_tail k)
  exit-Next busy =
      let (x, here, runs) = running-thread w in
      let k1 = set_status (record k { all_list = remove k.current k.all_list }) k.current x dying in
      let lists : Lists k1 = record {
        queued = λ t. ground (arith, w.lists.queued t, here, runs);
        sleeping = λ t. ground (arith, w.lists.sleeping t, here, runs);
        awake = w.lists.awake;
        listed =
            λ t. ground (arith, w.lists.listed t, here, runs, count-remove t k.current k.all_list);
        idle_alive = λ t h. ground (arith, w.lists.idle_alive t h, here, runs, busy);
      } in
      let (k', e, ((keeps, next), s)) =
        schedule-Next (leave k1 dying here refl refl refl refl lists) in
      let gone = s.dead k.current (ground arith) in
      (
        k',
        exit-schedule k x here runs ∙ e,
        (keeps, next, s.queue, gone, keeps.0.lists.listed k.current ∙ ap indicator gone),
      )
