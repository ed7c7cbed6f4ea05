-- ===== src/Thread/Start.antt =====
-- How a thread becomes ready: unblock and create.
use course_archive.Prelude.{
  ℕ, ◌+◌, ◌≡◌, refl, true, false, Option, none, some, List, [], ◌∷◌, ◌++◌, ◌==◌, take, Returns,
  arith,
}
use course_archive.Thread.{
  ready, blocked, Thread, Kernel, is_ready, is_blocked, is, store, set_status, thread_unblock,
}
use course_archive.Thread.WellFormed.{count, count-append, in_state, WellFormed}

-- What becomes of the kernel when `t` is unblocked.
pub record Unblocked (k : Kernel) (t : ℕ) (k' : Kernel) : Type 0 where
  pub well : WellFormed k'
  pub queue : k'.ready_list ≡ k.ready_list ++ (t ∷ [])
  pub current : k'.current ≡ k.current
  pub idle_thread : k'.idle_thread ≡ k.idle_thread
  pub sleep_list : k'.sleep_list ≡ k.sleep_list
  pub next_tid : k'.next_tid ≡ k.next_tid
  pub ticks : k'.ticks ≡ k.ticks
  pub yields : k'.yield_on_return ≡ k.yield_on_return
  pub is_now_ready : in_state is_ready (k'.threads t) ≡ true
  pub others : (s : ℕ) → (s == t) ≡ false → k'.threads s ≡ k.threads s

-- `thread_unblock` of a sleeping thread that is in no list makes it the last of the run queue and
-- keeps the scheduler well formed.
pub unblock-WellFormed :
    {k : Kernel} (t : ℕ)
    → WellFormed k
    → in_state is_blocked (k.threads t) ≡ true
    → is k.idle_thread t ≡ false
    → count t k.sleep_list ≡ 0
    → Returns (Unblocked k t) (thread_unblock k t)
unfolding thread_unblock
unblock-WellFormed {k} t w b busy free = go (k.threads t) refl
  where
    go : (o : Option Thread) → k.threads t ≡ o → Returns (Unblocked k t) (thread_unblock k t)
    go none e = cc (rw e at b)
    go (some x) e =
        let b' : is_blocked x.status ≡ true = rw e at b in
        (
          set_status (record k { ready_list = k.ready_list ++ (t ∷ []) }) t x ready,
          rw (e, b') refl,
          record {
            well = record {
              lists = record {
                queued = λ s.
                    ground (arith, w.lists.queued s, e, b', count-append s k.ready_list (t ∷ []));
                sleeping = λ s. ground (arith, w.lists.sleeping s, e, b');
                awake = w.lists.awake;
                listed = λ s. ground (arith, w.lists.listed s, e, b');
                idle_alive = λ s h. ground (arith, w.lists.idle_alive s h);
              };
              runs = λ s. ground (arith, w.runs s, e, b');
            };
            queue = refl;
            current = refl;
            idle_thread = refl;
            sleep_list = refl;
            next_tid = refl;
            ticks = refl;
            yields = refl;
            is_now_ready = ground arith;
            others = λ s ne. ground arith;
          },
        )

abbrev new_thread : List ℕ → ℕ → ℕ → Thread
new_thread name priority tid = record {
  tid = tid;
  status = blocked;
  name = take 15 name;
  priority = priority;
  ticks = 0;
  has_pagedir = false;
}

-- The kernel before the new thread is unblocked.
abbrev started : Kernel → List ℕ → ℕ → ℕ → Kernel
started k name priority t = record k {
  threads = store k.threads t (some (new_thread name priority k.next_tid));
  all_list = k.all_list ++ (t ∷ []);
  next_tid = k.next_tid + 1;
}

-- The kernel after `init_thread` has written the page.
abbrev initialized : Kernel → List ℕ → ℕ → ℕ → Kernel
initialized k name priority t = record k {
  threads = store k.threads t (some (new_thread name priority 0));
  all_list = k.all_list ++ (t ∷ []);
}
