-- ===== src/Thread/Tests.antt =====
-- A kernel with four threads, and the theorems on the scheduler there.
use course_archive.Prelude.{
  ℕ, ◌≡◌, refl, false, not, Option, none, some, [], ◌∷◌, ◌++◌, ◌==◌, if◌then◌else◌, Returns, arith,
}
use course_archive.Thread.{
  Status, running, ready, blocked, Thread, Kernel, is_blocked, schedule, thread_block, thread_yield,
  exit_tail,
}
use course_archive.Thread.WellFormed.{
  rest_of, count, in_state, alive, WellFormed, Leaving, Keeps, Switched,
}
use course_archive.Thread.Schedule.{Next, schedule-Next}
use course_archive.Thread.Steps.{block-Next, yield-Next, exit-Next}

abbrev pub thread_of : ℕ → Status → ℕ → Thread
thread_of tid s wake = record {
  tid = tid;
  status = s;
  name = 120 ∷ [];
  priority = 31;
  ticks = wake;
  has_pagedir = false;
}

-- Page 1 has the idle thread, 2 the running one, 3 a ready one, and 4 sleeps until tick 7.
abbrev pub pages : ℕ → Option Thread
pages t =
    if t == 1
    then some (thread_of 2 blocked 0)
    else (if t == 2
        then some (thread_of 1 running 0)
        else (if t == 3
            then some (thread_of 3 ready 0)
            else (if t == 4 then some (thread_of 4 blocked 7) else none)))

abbrev pub four : Kernel
four = record {
  threads = pages;
  ready_list = 3 ∷ [];
  all_list = 1 ∷ 2 ∷ 3 ∷ 4 ∷ [];
  sleep_list = 4 ∷ [];
  current = 2;
  idle_thread = some 1;
  initial_thread = 2;
  next_tid = 5;
  idle_ticks = 0;
  kernel_ticks = 6;
  user_ticks = 0;
  thread_ticks = 3;
  ticks = 6;
  intr_context = false;
  yield_on_return = false;
}

pub four-WellFormed : WellFormed four
four-WellFormed = record {
  lists = record {
    queued = λ t. ground arith;
    sleeping = λ t. ground arith;
    awake = λ t h. ground arith;
    listed = λ t. ground arith;
    idle_alive = λ t h. ground arith;
  };
  runs = λ t. ground arith;
}

-- The same kernel, whose current thread is no longer running.
abbrev leaving : Kernel
leaving = record four { threads = λ t. if t == 2 then some (thread_of 1 blocked 0) else pages t }

leaving-Leaving : Leaving leaving 1
leaving-Leaving = record {
  lists = record {
    queued = λ t. ground arith;
    sleeping = λ t. ground arith;
    awake = λ t h. ground arith;
    listed = λ t. ground arith;
    idle_alive = λ t h. ground arith;
  };
  stopped = λ t. ground arith;
  present = (thread_of 1 blocked 0, refl);
  idle = refl;
}

schedule-Next_example :
    Returns (λ k'. (Keeps leaving k' × Next leaving 1 k') × Switched leaving k') (schedule leaving)
schedule-Next_example = schedule-Next leaving-Leaving

block-Next_example :
    Returns
      (λ k'.
        Keeps four k'
        × (k'.current ≡ (elim four.ready_list [ [] ↦ 1 | t ∷ _ ↦ t ]))
        × (in_state is_blocked (k'.threads four.current) ≡ not (four.current == k'.current)))
      (thread_block four)
block-Next_example = block-Next four-WellFormed refl refl

yield-Next_example :
    Returns
      (λ k'.
        Keeps four k'
        × (k'.current ≡ (elim four.ready_list [ [] ↦ four.current | t ∷ _ ↦ t ]))
        × (k'.current ∷ k'.ready_list ≡ four.ready_list ++ (four.current ∷ [])))
      (thread_yield four)
yield-Next_example = yield-Next four-WellFormed refl refl refl

exit-Next_example :
    Returns
      (λ k'.
        Keeps four k'
        × (k'.current ≡ (elim four.ready_list [ [] ↦ 1 | t ∷ _ ↦ t ]))
        × (k'.ready_list ≡ rest_of four.ready_list)
        × (in_state alive (k'.threads four.current) ≡ false)
        × (count four.current k'.all_list ≡ 0))
      (exit_tail four)
exit-Next_example = exit-Next four-WellFormed refl refl

-- Page 4 waits for something else than the time.
abbrev pub waiting : Kernel
waiting = record four { sleep_list = [] }

pub waiting-WellFormed : WellFormed waiting
waiting-WellFormed = record {
  lists = record {
    queued = λ t. ground arith;
    sleeping = λ t. ground arith;
    awake = λ t h. ground arith;
    listed = λ t. ground arith;
    idle_alive = λ t h. ground arith;
  };
  runs = λ t. ground arith;
}
