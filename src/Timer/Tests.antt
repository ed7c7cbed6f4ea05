-- ===== src/Timer/Tests.antt =====
-- The theorems on sleeping, at a kernel with four threads.
use course_archive.Prelude.{◌+◌, ◌≡◌, true, false, ◌||◌, leb, refl, Returns, arith}
use course_archive.Timer.{wake_time, timer_interrupt, timer_sleep}
use course_archive.Timer.Wake.{Woken, advance, timer_interrupt-Woken}
use course_archive.Timer.Sleep.{Sleeps, timer_sleep-Sleeps}
use course_archive.Thread.{Kernel, time_slice}
use course_archive.Thread.WellFormed.{WellFormed}
use course_archive.Thread.Tests.{four, four-WellFormed}

-- The fourth tick of the running thread's slice.
abbrev interrupted : Kernel
interrupted = record four { intr_context = true }

interrupted-WellFormed : WellFormed interrupted
interrupted-WellFormed = record {
  lists = record {
    queued = λ t. ground arith;
    sleeping = λ t. ground arith;
    awake = λ t h. ground arith;
    listed = λ t. ground arith;
    idle_alive = λ t h. ground arith;
  };
  runs = λ t. ground arith;
}

timer_interrupt-Woken_example :
    Returns
      (λ k'.
        Woken (wake_time interrupted.threads) interrupted.sleep_list (advance interrupted) k'
        × (k'.yield_on_return ≡ leb time_slice (3 + 1) || false))
      (timer_interrupt interrupted)
timer_interrupt-Woken_example = timer_interrupt-Woken interrupted-WellFormed refl (tt, tt)

timer_sleep-Sleeps_example : Returns (Sleeps four 5 1) (timer_sleep true four 5)
timer_sleep-Sleeps_example = timer_sleep-Sleeps 5 four-WellFormed refl refl refl refl (tt, tt)
