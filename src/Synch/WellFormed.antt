-- ===== src/Synch/WellFormed.antt =====
-- Semaphores keep their waiters apart from the scheduler's other lists.
use course_archive.Prelude.{
  ℕ, ◌+◌, ◌%◌, ◌^◌, ◌≤◌, ◌<◌, ◌≡◌, refl, sym, ◌∙◌, ap, Bool, true, false, some, List, [], ◌∷◌, ◌++◌,
  ◌==◌, if◌then◌else◌, Returns, Bool-cases, inl, inr, arith,
}
use course_archive.Thread.{Kernel, is, is_blocked}
use course_archive.Thread.WellFormed.{count, in_state, WellFormed}
use course_archive.Thread.Start.{Unblocked, unblock-WellFormed}
use course_archive.Synch.{Semaphore, sema_up, wake}

-- A thread waits once, and then it is blocked and does not sleep; the idle thread never waits.
pub record Waiting (k : Kernel) (l : List ℕ) : Type 0 where
  pub blocked_there :
      (t : ℕ)
      → count t l + count t k.sleep_list ≤ (if in_state is_blocked (k.threads t) then 1 else 0)
  pub awake : (t : ℕ) → is k.idle_thread t ≡ true → count t l ≡ 0

abbrev pub Synced : Kernel → Semaphore → Type 0
Synced k s = WellFormed k × Waiting k s.waiters

-- What has become of a semaphore and the scheduler after `sema_up`.
pub record Upped (k : Kernel) (s : Semaphore) (k' : Kernel) (s' : Semaphore) : Type 0 where
  pub synced : Synced k' s'
  pub value : s'.value ≡ s.value + 1
  pub current : k'.current ≡ k.current
  pub woken : k.ready_list ++ s.waiters ≡ k'.ready_list ++ s'.waiters
  pub one : ◌≡◌ {A = List ℕ} s'.waiters (elim s.waiters [ [] ↦ [] | _ ∷ l ↦ l ])

append_assoc_one : (xs : List ℕ) (t : ℕ) (ys : List ℕ) → xs ++ (t ∷ ys) ≡ (xs ++ (t ∷ [])) ++ ys
append_assoc_one [] t ys = refl
append_assoc_one (x ∷ xs) t ys = ap (λ (l : List ℕ). x ∷ l) (append_assoc_one xs t ys)

front-blocked :
    (b : Bool) (c d : ℕ) → (1 + c) + d ≤ (if b then 1 else 0) → (b ≡ true) × ((c ≡ 0) × (d ≡ 0))
front-blocked true c d h = (refl, (ground arith, ground arith))
front-blocked false c d h = absurd (ground arith)

remainder : (n : ℕ) → n < 2 ^ 32 → n % 2 ^ 32 ≡ n
remainder n h = omega arith

up-wake :
    (k k' : Kernel) (s : Semaphore) (l : List ℕ)
    → wake k s.waiters ≡ some (k', l)
    → s.value + 1 < 2 ^ 32
    → sema_up k s ≡ some (k', record { value = s.value + 1; waiters = l })
unfolding sema_up
up-wake k k' s l e small = rw (e, remainder (s.value + 1) small) refl

-- The others wait on, for `t` is in no list but the run queue.
woken_waiting :
    (k k' : Kernel) (t : ℕ) (l : List ℕ)
    → Unblocked k t k'
    → count t l ≡ 0
    → is k.idle_thread t ≡ false
    → ((x : ℕ)
        → count x (t ∷ l) + count x k.sleep_list
          ≤ (if in_state is_blocked (k.threads x) then 1 else 0))
    → (x : ℕ)
    → count x l + count x k'.sleep_list ≤ (if in_state is_blocked (k'.threads x) then 1 else 0)
woken_waiting k k' t l u once busy h x =
    let same : count x k'.sleep_list ≡ count x k.sleep_list = ap (count x) u.sleep_list in
    elim (Bool-cases (x == t)) [
      | inl a ↦ ground (arith, h x, h t, once, same)
      | inr b ↦ ground (arith, h x, u.others x b, same)
    ]

-- `sema_up` never panics: it adds one to the value, wakes the thread that has waited longest, if
-- any, by moving it to the end of the run queue, and keeps scheduler and waiters well formed.
pub sema_up-Upped :
    {k : Kernel} (s : Semaphore)
    → Synced k s
    → s.value + 1 < 2 ^ 32
    → Returns (λ (k', s'). Upped k s k' s') (sema_up k s)
unfolding wake
sema_up-Upped {k} s (w, v) small = go s.waiters refl
  where
    go : (l : List ℕ) → s.waiters ≡ l → Returns (λ (k', s'). Upped k s k' s') (sema_up k s)
    go [] e = (
      (k, record { value = s.value + 1; waiters = [] }),
      up-wake k k s [] (rw e refl) small,
      record {
        synced = (w, rw e at v);
        value = refl;
        current = refl;
        woken = ap (λ (m : List ℕ). k.ready_list ++ m) e;
        one = rw e refl;
      },
    )
    go (t ∷ l) e =
        let h : ((u : ℕ)
            → count u (t ∷ l) + count u k.sleep_list
              ≤ (if in_state is_blocked (k.threads u) then 1 else 0)) =
          (λ u. rw e at (v.blocked_there u)) in
        let (b, (once, quiet)) =
          front-blocked (in_state is_blocked (k.threads t)) (count t l) (count t k.sleep_list)
            (ground (arith, h t)) in
        let busy : is k.idle_thread t ≡ false = elim (Bool-cases (is k.idle_thread t)) [
          | inl i ↦ absurd (ground (arith, (rw e at (v.awake t i))))
          | inr n ↦ n
        ] in
        let (k', ek, u) = unblock-WellFormed {k = k} t w b busy quiet in
        (
          (k', record { value = s.value + 1; waiters = l }),
          up-wake k k' s l (rw (e, ek) refl) small,
          record {
            synced = (
              u.well,
              record {
                blocked_there = λ x. woken_waiting k k' t l u once busy h x;
                awake = λ x i.
                    ground (arith, rw e at (v.awake x (ap (λ o. is o x) (sym u.idle_thread) ∙ i)));
              },
            );
            value = refl;
            current = u.current;
            woken =
                ap (λ (m : List ℕ). k.ready_list ++ m) e
                ∙ append_assoc_one k.ready_list t l
                ∙ ap (λ (m : List ℕ). m ++ l) (sym u.queue);
            one = rw e refl;
          },
        )
