-- ===== src/Thread/WellFormed.antt =====
-- What holds of the scheduler's lists and of the threads' states between two steps.
use course_archive.Prelude.{
  ℕ, ◌+◌, ◌≤◌, ◌≡◌, refl, Bool, true, false, not, ◌&&◌, Option, none, some, List, [], ◌∷◌, ◌++◌,
  ◌==◌, if◌then◌else◌, arith,
}
use course_archive.Thread.{
  Status, running, Thread, Kernel, is_running, is_ready, is_blocked, is_dying, is, store,
}

-- How often `t` stands in a list.
abbrev pub count : ℕ → List ℕ → ℕ
count t [] = 0
count t (s ∷ l) = (if t == s then 1 else 0) + count t l

pub count-append : (t : ℕ) (l m : List ℕ) → count t (l ++ m) ≡ count t l + count t m
count-append t [] m = ground arith
count-append t (s ∷ l) m = ground (arith, count-append t l m)

-- A page has a thread, of such a status.
abbrev pub in_state : (Status → Bool) → Option Thread → Bool
in_state p none = false
in_state p (some x) = p x.status

abbrev pub alive : Status → Bool
alive s = not (is_dying s)

-- The states exclude one another.
pub blocked-running :
    (o : Option Thread) → in_state is_blocked o ≡ true → in_state is_running o ≡ false
blocked-running o h = ground arith

pub blocked-dying : (o : Option Thread) → in_state is_blocked o ≡ true → in_state is_dying o ≡ false
blocked-dying o h = ground arith

abbrev pub indicator : Bool → ℕ
indicator b = if b then 1 else 0

-- What each list holds; true in the midst of a switch, too.
pub record Lists (k : Kernel) : Type 0 where
  -- the run queue: the ready threads but the idle thread, each once
  pub queued :
      (t : ℕ)
      → count t k.ready_list
        ≡ indicator (in_state is_ready (k.threads t) && not (is k.idle_thread t))
  -- the sleepers: blocked threads, each once, and not the idle thread
  pub sleeping : (t : ℕ) → count t k.sleep_list ≤ indicator (in_state is_blocked (k.threads t))
  pub awake : (t : ℕ) → is k.idle_thread t ≡ true → count t k.sleep_list ≡ 0
  -- all threads that have not exited, each once
  pub listed : (t : ℕ) → count t k.all_list ≡ indicator (in_state alive (k.threads t))
  pub idle_alive : (t : ℕ) → is k.idle_thread t ≡ true → in_state alive (k.threads t) ≡ true

-- Between two steps exactly the current thread is running.
pub record WellFormed (k : Kernel) : Type 0 where
  pub lists : Lists k
  pub runs : (t : ℕ) → in_state is_running (k.threads t) ≡ (t == k.current)

-- On entry of `schedule` no thread is, and there is an idle thread to fall back on.
pub record Leaving (k : Kernel) (i : ℕ) : Type 0 where
  pub lists : Lists k
  pub stopped : (t : ℕ) → in_state is_running (k.threads t) ≡ false
  pub present : (x : Thread) × (k.threads k.current ≡ some x)
  pub idle : k.idle_thread ≡ some i

-- The result of a step: well formed, with the same idle thread.
abbrev pub Keeps : Kernel → Kernel → Type 0
Keeps k k' = WellFormed k' × (k'.idle_thread ≡ k.idle_thread)

-- A list without its first element.
abbrev pub rest_of : List ℕ → List ℕ
rest_of [] = []
rest_of (t ∷ l) = l

-- What a switch from `k` leaves alone, and that it revives no thread.
pub record Switched (k k' : Kernel) : Type 0 where
  pub kept :
      (t : ℕ)
      → (t == k'.current) ≡ false
      → in_state is_dying (k.threads t) ≡ false
      → k'.threads t ≡ k.threads t
  pub dead : (t : ℕ) → in_state alive (k.threads t) ≡ false → in_state alive (k'.threads t) ≡ false
  pub asleep : k'.sleep_list ≡ k.sleep_list
  pub now : k'.ticks ≡ k.ticks
  pub queue : k'.ready_list ≡ rest_of k.ready_list

-- The kernel after a switch to the thread `x` on page `n`, before the old one is destroyed.
abbrev pub switched : Kernel → ℕ → List ℕ → Thread → Kernel
switched k n queue x = record k {
  ready_list = queue;
  current = n;
  thread_ticks = 0;
  threads = store k.threads n (some (record x { status = running }));
}

-- The thread `n` goes on, with `queue` left in the run queue.
module _ {k : Kernel} {i : ℕ} (v : Leaving k i) (n : ℕ) (queue : List ℕ) {x : Thread}
    (here : k.threads n ≡ some x) (lives : is_dying x.status ≡ false)
    (rest : (t : ℕ)
      → count t queue
        ≡ indicator (in_state is_ready (k.threads t) && not (is k.idle_thread t) && not (t == n)))
    (no_sleep : count n k.sleep_list ≡ 0) where
  pub switched-WellFormed : WellFormed (switched k n queue x)
  switched-WellFormed = record {
    lists = record {
      queued = λ t. ground (arith, rest t);
      sleeping = λ t. ground (arith, v.lists.sleeping t, no_sleep);
      awake = λ t. v.lists.awake t;
      listed = λ t. ground (arith, v.lists.listed t, here, lives);
      idle_alive = λ t h. ground (arith, v.lists.idle_alive t h);
    };
    runs = λ t. ground (arith, v.stopped t);
  }

  pub switched-Switched : queue ≡ rest_of k.ready_list → Switched k (switched k n queue x)
  switched-Switched left = record {
    kept = λ t ne _. ground arith;
    dead = λ t h. ground (arith, here, lives);
    asleep = refl;
    now = refl;
    queue = left;
  }
