-- ===== src/Timer/Wake.antt =====
-- The timer interrupt wakes exactly the sleepers whose time has come.
use mathlib.Core.List.{append-nil}
use mathlib.Core.Path.{subst}
use course_archive.Prelude.{
  ℕ, suc, ◌+◌, ◌≡◌, refl, sym, ◌||◌, leb, leb, ◌∙◌, ap, ◌≢◌, Bool, true, false, Option, none, some,
  List, [], ◌∷◌, ◌++◌, ◌==◌, ltb, if◌then◌else◌, Returns, Bool-cases, inl, inr, arith,
}
use course_archive.Thread.{
  Thread, Kernel, is_blocked, is, thread_current, thread_unblock, thread_tick, time_slice,
  intr_yield_on_return,
}
use course_archive.Thread.WellFormed.{count, in_state, WellFormed}
use course_archive.Thread.Steps.{running-thread}
use course_archive.Thread.Start.{unblock-WellFormed}
use course_archive.Timer.{wake_time, wake_loop, timer_interrupt}
use course_archive.Timer.Order.{Above, Above-le, Below, IsSorted}

-- `due` of the sleepers `l` are woken, in their order, and the others sleep on.
pub record Woken (key : ℕ → ℕ) (l : List ℕ) (k k' : Kernel) : Type 0 where
  pub due : List ℕ
  pub split : l ≡ due ++ k'.sleep_list
  pub queue : k'.ready_list ≡ k.ready_list ++ due
  pub on_time : Below key k.ticks due
  pub later : Above key (suc k.ticks) k'.sleep_list
  pub well : WellFormed k'
  pub current : k'.current ≡ k.current
  pub ticks : k'.ticks ≡ k.ticks

-- The keys are the wake times of the threads.
abbrev pub Keys : (ℕ → ℕ) → List ℕ → Kernel → Type 0
Keys key l k = (s : ℕ) → count s l ≢ 0 → wake_time k.threads s ≡ key s

append_assoc_one : (xs : List ℕ) (t : ℕ) (ys : List ℕ) → (xs ++ (t ∷ [])) ++ ys ≡ xs ++ (t ∷ ys)
append_assoc_one [] t ys = refl
append_assoc_one (x ∷ xs) t ys = ap (λ (l : List ℕ). x ∷ l) (append_assoc_one xs t ys)

-- The first sleeper is blocked, is not the idle thread, and does not sleep twice.
module _ {k : Kernel} (w : WellFormed k) (t : ℕ) (l : List ℕ) (e : k.sleep_list ≡ t ∷ l) where
  front-count : (s : ℕ) → count s k.sleep_list ≡ (if s == t then 1 else 0) + count s l
  front-count s = ap (count s) e

  front-blocked : in_state is_blocked (k.threads t) ≡ true
  front-blocked = elim (Bool-cases (in_state is_blocked (k.threads t))) [
    | inl b ↦ b
    | inr b ↦ absurd (ground (arith, front-count t, w.lists.sleeping t))
  ]

  front-once : count t l ≡ 0
  front-once = ground (arith, front-count t, w.lists.sleeping t)

  front-busy : is k.idle_thread t ≡ false
  front-busy = elim (Bool-cases (is k.idle_thread t)) [
    | inl b ↦ absurd (ground (arith, front-count t, w.lists.awake t b))
    | inr b ↦ b
  ]

  without-WellFormed : WellFormed (record k { sleep_list = l })
  without-WellFormed = record {
    lists = record {
      queued = w.lists.queued;
      sleeping = λ s. omega (arith, front-count s, w.lists.sleeping s);
      awake = λ s h. omega (arith, front-count s, w.lists.awake s h);
      listed = w.lists.listed;
      idle_alive = w.lists.idle_alive;
    };
    runs = w.runs;
  }

-- One round.
wake_loop-stop :
    (k : Kernel) (t : ℕ) (l : List ℕ) (x : Thread)
    → k.threads t ≡ some x
    → ltb k.ticks x.ticks ≡ true
    → wake_loop (t ∷ l) k ≡ some k
unfolding wake_loop
wake_loop-stop k t l x at early = rw (at, early) refl

wake_loop-next :
    (k k1 : Kernel) (t : ℕ) (l : List ℕ) (x : Thread)
    → k.threads t ≡ some x
    → ltb k.ticks x.ticks ≡ false
    → thread_unblock (record k { sleep_list = l }) t ≡ some k1
    → wake_loop (t ∷ l) k ≡ wake_loop l k1
unfolding wake_loop
wake_loop-next k k1 t l x at late woken = rw (at, late, woken) refl

thread_at :
    (k : Kernel) (t : ℕ)
    → in_state is_blocked (k.threads t) ≡ true
    → (x : Thread) × (k.threads t ≡ some x)
thread_at k t h = go (k.threads t) refl
  where
    go : (o : Option Thread) → k.threads t ≡ o → (x : Thread) × (k.threads t ≡ some x)
    go none e = cc (rw e at h)
    go (some x) e = (x, e)

wake_loop-Woken :
    (key : ℕ → ℕ) (l : List ℕ) {k : Kernel}
    → WellFormed k
    → k.sleep_list ≡ l
    → IsSorted key l
    → Keys key l k
    → Returns (λ k'. Woken key l k k' × (k'.yield_on_return ≡ k.yield_on_return)) (wake_loop l k)
unfolding wake_loop
wake_loop-Woken key [] {k} w e s same = (
  k,
  refl,
  (
    record {
      due = [];
      split = sym e;
      queue = sym (append-nil k.ready_list);
      on_time = tt;
      later = rw e tt;
      well = w;
      current = refl;
      ticks = refl;
    },
    refl,
  ),
)
wake_loop-Woken key (t ∷ l) {k} w e (first, s) same =
    let (x, at) = thread_at k t (front-blocked w t l e) in
    let time : x.ticks ≡ key t = ground (arith, same t) in
    elim (Bool-cases (ltb k.ticks x.ticks)) [
      | inl early ↦ (
        k,
        wake_loop-stop k t l x at early,
        (
          record {
            due = [];
            split = sym e;
            queue = sym (append-nil k.ready_list);
            on_time = tt;
            later = rw e (
              ground (arith, time),
              Above-le key (suc k.ticks) (key t) l (ground (arith, time)) first,
            );
            well = w;
            current = refl;
            ticks = refl;
          },
          refl,
        ),
      )
      | inr late ↦
          let (k1, e1, u) =
            unblock-WellFormed {k = record k { sleep_list = l }} t (without-WellFormed w t l e)
              (front-blocked w t l e) (front-busy w t l e) (front-once w t l e) in
          let (k2, e2, (r, same_yields)) =
            wake_loop-Woken key l {k = k1} u.well u.sleep_list s
              (λ v n. ground (arith, u.others v, same v, front-once w t l e)) in
          (
            k2,
            wake_loop-next k k1 t l x at late e1 ∙ e2,
            (
              record {
                due = t ∷ r.due;
                split = ap (λ (m : List ℕ). t ∷ m) r.split;
                queue =
                    r.queue
                    ∙ ap (λ (m : List ℕ). m ++ r.due) u.queue
                    ∙ append_assoc_one k.ready_list t r.due;
                on_time =
                    (ground (arith, time), subst (λ (n : ℕ). Below key n r.due) u.ticks r.on_time);
                later = subst (λ (n : ℕ). Above key (suc n) k2.sleep_list) u.ticks r.later;
                well = r.well;
                current = r.current ∙ u.current;
                ticks = r.ticks ∙ u.ticks;
              },
              same_yields ∙ u.yields,
            ),
          )
    ]

-- `k` with other counters.
abbrev counted : Kernel → ℕ → ℕ → ℕ → ℕ → Bool → Kernel
counted k idle kernel user slice yields = record k {
  idle_ticks = idle;
  kernel_ticks = kernel;
  user_ticks = user;
  thread_ticks = slice;
  yield_on_return = yields;
}

counted-WellFormed :
    {k : Kernel} (a b c d : ℕ) (e : Bool) → WellFormed k → WellFormed (counted k a b c d e)
counted-WellFormed a b c d e w = record {
  lists = record {
    queued = w.lists.queued;
    sleeping = w.lists.sleeping;
    awake = w.lists.awake;
    listed = w.lists.listed;
    idle_alive = w.lists.idle_alive;
  };
  runs = w.runs;
}

-- `thread_tick` counts, asks for a yield at the end of the slice, and leaves everything else alone.
abbrev Ticked : Kernel → Kernel → Type 0
Ticked k k' =
    (WellFormed k' × (k'.threads ≡ k.threads) × (k'.ready_list ≡ k.ready_list))
    × ((k'.sleep_list ≡ k.sleep_list) × (k'.current ≡ k.current) × (k'.ticks ≡ k.ticks))
    × (k'.yield_on_return ≡ leb time_slice (k.thread_ticks + 1) || k.yield_on_return)

-- The end of `thread_tick`, once the statistics are counted.
tick_end-Ticked :
    {k : Kernel} (a b c d : ℕ)
    → d ≡ k.thread_ticks + 1
    → WellFormed k
    → k.intr_context ≡ true
    → Returns (Ticked k) (
        if leb time_slice d
        then intr_yield_on_return (counted k a b c d k.yield_on_return)
        else some (counted k a b c d k.yield_on_return))
tick_end-Ticked {k} a b c d more w inside = elim (Bool-cases (leb time_slice d)) [
  | inl over ↦ (
    counted k a b c d true,
    rw (over, inside) refl,
    ((counted-WellFormed a b c d true w, refl, refl), (refl, refl, refl), rw (← more, over) refl),
  )
  | inr under ↦ (
    counted k a b c d k.yield_on_return,
    rw under refl,
    (
      (counted-WellFormed a b c d k.yield_on_return w, refl, refl),
      (refl, refl, refl),
      rw (← more, under) refl,
    ),
  )
]

thread_tick-Ticked :
    {k : Kernel} → WellFormed k → k.intr_context ≡ true → Returns (Ticked k) (thread_tick k)
unfolding thread_tick thread_current
thread_tick-Ticked {k} w inside =
    let (x, here, runs) = running-thread w in
    let slice = k.thread_ticks + 1 in
    rw (here, runs)
      (elim (Bool-cases (is k.idle_thread k.current)) [
        | inl b ↦
            rw b
              (tick_end-Ticked (k.idle_ticks + 1) k.kernel_ticks k.user_ticks slice refl w inside)
        | inr b ↦ elim (Bool-cases x.has_pagedir) [
          | inl p ↦
              rw (b, p)
                (tick_end-Ticked k.idle_ticks k.kernel_ticks (k.user_ticks + 1) slice refl w inside)
          | inr p ↦
              rw (b, p)
                (tick_end-Ticked k.idle_ticks (k.kernel_ticks + 1) k.user_ticks slice refl w inside)
        ]
      ])

-- The kernel at the next tick.
abbrev pub advance : Kernel → Kernel
advance k = record k { ticks = k.ticks + 1 }

interrupt-loop :
    (k k1 : Kernel)
    → thread_tick (advance k) ≡ some k1
    → timer_interrupt k ≡ wake_loop k1.sleep_list k1
unfolding timer_interrupt
interrupt-loop k k1 e = rw e refl

advance-WellFormed : {k : Kernel} → WellFormed k → WellFormed (advance k)
advance-WellFormed w = record {
  lists = record {
    queued = w.lists.queued;
    sleeping = w.lists.sleeping;
    awake = w.lists.awake;
    listed = w.lists.listed;
    idle_alive = w.lists.idle_alive;
  };
  runs = w.runs;
}

-- In an interrupt, on a well-formed kernel whose sleepers are in the order of their wake times,
-- `timer_interrupt` does not panic: it moves the sleepers whose time has come, in their order, to
-- the end of the run queue, lets exactly the later ones sleep on, asks for a yield if the running
-- thread's slice is over, and leaves the kernel well formed.
pub timer_interrupt-Woken :
    {k : Kernel}
    → WellFormed k
    → k.intr_context ≡ true
    → IsSorted (wake_time k.threads) k.sleep_list
    → Returns
        (λ k'.
          Woken (wake_time k.threads) k.sleep_list (advance k) k'
          × (k'.yield_on_return ≡ leb time_slice (k.thread_ticks + 1) || k.yield_on_return))
        (timer_interrupt k)
timer_interrupt-Woken {k} w inside sorted =
    let (k1, e1, ((w1, threads, ready), (sleep, current, ticks), yields)) =
      thread_tick-Ticked (advance-WellFormed w) inside in
    let key = wake_time k.threads in
    let (k2, e2, (r, same_yields)) =
      wake_loop-Woken key k1.sleep_list {k = k1} w1 refl (rw sleep sorted)
        (λ s _. ap (λ (f : ℕ → Option Thread). wake_time f s) threads) in
    (
      k2,
      interrupt-loop k k1 e1 ∙ e2,
      (
        record {
          due = r.due;
          split = sym sleep ∙ r.split;
          queue = r.queue ∙ ap (λ (l : List ℕ). l ++ r.due) ready;
          on_time = subst (λ (n : ℕ). Below key n r.due) ticks r.on_time;
          later = subst (λ (n : ℕ). Above key (suc n) k2.sleep_list) ticks r.later;
          well = r.well;
          current = r.current ∙ current;
          ticks = r.ticks ∙ ticks;
        },
        same_yields ∙ yields,
      ),
    )
