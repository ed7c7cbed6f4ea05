-- ===== src/Prelude/Slices.antt =====
-- Parts of a list, and lists given by a function on positions.
use Prim.Native.Nat.{ℕ, zero, suc, ◌+◌, ◌-◌, ◌≤◌, ◌<◌}
use mathlib.Core.Bool.{true, false}
use course_archive.Prelude.Tests.{ltb, if◌then◌else◌}
use mathlib.Core.Path.{◌≡◌, refl, ap, ◌∙◌}
use mathlib.Core.List.{List, [], ◌∷◌, ◌++◌}
use native.Mathlib.Omega.{arith}
use course_archive.Prelude.Lists.{length, get_or, take, drop}

module _ {ℓ} {A : Type ℓ} where
  -- The values of `g` from `start` on.
  abbrev pub tabulate : (ℕ → A) → ℕ → ℕ → List A
  tabulate g start zero = []
  tabulate g start (suc n) = g start ∷ tabulate g (start + 1) n

  pub tabulate-ext :
      (g h : ℕ → A) (a b n : ℕ)
      → ((k : ℕ) → k < n → g (a + k) ≡ h (b + k))
      → tabulate g a n ≡ tabulate h b n
  tabulate-ext g h a b zero same = refl
  tabulate-ext g h a b (suc n) same =
      let now : g a ≡ h b = ap g (omega arith) ∙ same 0 (omega arith) ∙ ap h (omega arith) in
      let later : tabulate g (a + 1) n ≡ tabulate h (b + 1) n =
        tabulate-ext g h (a + 1) (b + 1) n
          (λ k lt. ap g (omega arith) ∙ same (suc k) (omega arith) ∙ ap h (omega arith)) in
      rw (now, later) refl

  -- The same positions, written otherwise.
  pub tabulate-at : (g : ℕ → A) {a b n m : ℕ} → a ≡ b → n ≡ m → tabulate g a n ≡ tabulate g b m
  tabulate-at g p q = rw (p, q) refl

  pub get_or-at : (xs : List A) (d : A) {i j : ℕ} → i ≡ j → get_or xs i d ≡ get_or xs j d
  get_or-at xs d p = rw p refl

  pub tabulate-append :
      (g : ℕ → A) (a n m : ℕ) → tabulate g a (n + m) ≡ tabulate g a n ++ tabulate g (a + n) m
  tabulate-append g a zero m = tabulate-at g {b = a + 0} {m = m} (omega arith) (omega arith)
  tabulate-append g a (suc n) m =
      tabulate-at g {b = a} {m = suc (n + m)} refl (omega arith)
      ∙ ap (λ (l : List A). g a ∷ l)
          (tabulate-append g (a + 1) n m
            ∙ ap (λ (l : List A). tabulate g (a + 1) n ++ l)
                (tabulate-at g {b = a + suc n} {m = m} (omega arith) refl))

  pub length-tabulate : (g : ℕ → A) (a n : ℕ) → length (tabulate g a n) ≡ n
  length-tabulate g a zero = refl
  length-tabulate g a (suc n) = ap suc (length-tabulate g (a + 1) n)

  pub get_or-tabulate :
      (g : ℕ → A) (a n i : ℕ) (d : A) → i < n → get_or (tabulate g a n) i d ≡ g (a + i)
  get_or-tabulate g a zero i d lt = absurd (omega arith)
  get_or-tabulate g a (suc n) zero d lt = ap g (omega arith)
  get_or-tabulate g a (suc n) (suc i) d lt =
      get_or-tabulate g (a + 1) n i d (omega arith) ∙ ap g (omega arith)

  shift : (x : A) (xs : List A) (k : ℕ) (d : A) → get_or xs (0 + k) d ≡ get_or (x ∷ xs) (1 + k) d
  shift x xs k d =
      let left : 0 + k ≡ k = omega arith in
      let right : 1 + k ≡ suc k = omega arith in rw (left, right) refl

  -- What `take` and `drop` leave.
  pub take-tabulate :
      (xs : List A) (n : ℕ) (d : A) → n ≤ length xs → take n xs ≡ tabulate (λ i. get_or xs i d) 0 n
  take-tabulate xs zero d le = refl
  take-tabulate [] (suc n) d le = absurd (omega arith)
  take-tabulate (x ∷ xs) (suc n) d le =
      ap (λ (l : List A). x ∷ l)
        (take-tabulate xs n d (omega arith)
          ∙ tabulate-ext (λ i. get_or xs i d) (λ i. get_or (x ∷ xs) i d) 0 1 n
              (λ k lt. shift x xs k d))

  pub get_or-drop : (xs : List A) (o i : ℕ) (d : A) → get_or (drop o xs) i d ≡ get_or xs (o + i) d
  get_or-drop xs zero i d = get_or-at xs d {j = 0 + i} (omega arith)
  get_or-drop [] (suc o) i d = refl
  get_or-drop (x ∷ xs) (suc o) i d =
      get_or-drop xs o i d ∙ get_or-at (x ∷ xs) d {i = suc (o + i)} {j = suc o + i} (omega arith)

  pub get_or-append :
      (xs ys : List A) (i : ℕ) (d : A)
      → get_or (xs ++ ys) i d
        ≡ (if ltb i (length xs) then get_or xs i d else get_or ys (i - length xs) d)
  get_or-append [] ys i d =
      let all : ltb i 0 ≡ false = ground arith in
      let same : i - 0 ≡ i = omega arith in rw (all, same) refl
  get_or-append (x ∷ xs) ys zero d =
      let first : ltb 0 (suc (length xs)) ≡ true = ground arith in rw first refl
  get_or-append (x ∷ xs) ys (suc i) d = get_or-append xs ys i d ∙ step
    where
      step : (if ltb i (length xs) then get_or xs i d else get_or ys (i - length xs) d) ≡ (
          if ltb (suc i) (suc (length xs))
          then get_or (x ∷ xs) (suc i) d
          else get_or ys (suc i - suc (length xs)) d)
      step =
          let test : ltb (suc i) (suc (length xs)) ≡ ltb i (length xs) = ground arith in
          let rest : suc i - suc (length xs) ≡ i - length xs = omega arith in rw (test, rest) refl

  pub get_or-take : (xs : List A) (n i : ℕ) (d : A) → i < n → get_or (take n xs) i d ≡ get_or xs i d
  get_or-take xs zero i d lt = absurd (omega arith)
  get_or-take [] (suc n) i d lt = refl
  get_or-take (x ∷ xs) (suc n) zero d lt = refl
  get_or-take (x ∷ xs) (suc n) (suc i) d lt = get_or-take xs n i d (omega arith)

  pub take-length : (xs : List A) → take (length xs) xs ≡ xs
  take-length [] = refl
  take-length (x ∷ xs) = ap (λ (l : List A). x ∷ l) (take-length xs)
