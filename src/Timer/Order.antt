-- ===== src/Timer/Order.antt =====
-- A list of threads in the order of a key.
use course_archive.Prelude.{
  ℕ, ◌+◌, ◌≤◌, ◌≡◌, refl, ◌≢◌, Bool, List, [], ◌∷◌, ◌==◌, ltb, if◌then◌else◌, Bool-cases, inl, inr,
  arith,
}
use course_archive.Thread.WellFormed.{count}
use course_archive.Timer.{list_insert_ordered}

-- Every key is at least `n`.
abbrev pub Above : (ℕ → ℕ) → ℕ → List ℕ → Type 0
Above key n [] = Unit
Above key n (s ∷ l) = (n ≤ key s) × Above key n l

-- Every key is at most `n`.
abbrev pub Below : (ℕ → ℕ) → ℕ → List ℕ → Type 0
Below key n [] = Unit
Below key n (s ∷ l) = (key s ≤ n) × Below key n l

abbrev pub IsSorted : (ℕ → ℕ) → List ℕ → Type 0
IsSorted key [] = Unit
IsSorted key (s ∷ l) = Above key (key s) l × IsSorted key l

pub Above-le : (key : ℕ → ℕ) (m n : ℕ) (l : List ℕ) → m ≤ n → Above key n l → Above key m l
Above-le key m n [] h a = tt
Above-le key m n (s ∷ l) h (a, b) = (omega arith, Above-le key m n l h b)

insert-Above :
    (key : ℕ → ℕ) (n t : ℕ) (l : List ℕ)
    → n ≤ key t
    → Above key n l
    → Above key n (list_insert_ordered (λ a b. ltb (key a) (key b)) t l)
unfolding list_insert_ordered
insert-Above key n t [] h a = (h, tt)
insert-Above key n t (s ∷ l) h (a, b) = elim (Bool-cases (ltb (key t) (key s))) [
  | inl lt ↦ rw lt (h, (a, b))
  | inr ge ↦ rw ge (a, insert-Above key n t l h b)
]

-- `list_insert_ordered` keeps a sorted list sorted,
pub insert-IsSorted :
    (key : ℕ → ℕ) (t : ℕ) (l : List ℕ)
    → IsSorted key l
    → IsSorted key (list_insert_ordered (λ a b. ltb (key a) (key b)) t l)
unfolding list_insert_ordered
insert-IsSorted key t [] h = (tt, tt)
insert-IsSorted key t (s ∷ l) (a, h) = elim (Bool-cases (ltb (key t) (key s))) [
  | inl lt ↦ rw lt ((ground arith, Above-le key (key t) (key s) l (ground arith) a), (a, h))
  | inr ge ↦ rw ge (insert-Above key (key s) t l (ground arith) a, insert-IsSorted key t l h)
]

-- and adds its element once.
pub count-insert :
    (less : ℕ → ℕ → Bool) (u t : ℕ) (l : List ℕ)
    → count u (list_insert_ordered less t l) ≡ (if u == t then 1 else 0) + count u l
unfolding list_insert_ordered
count-insert less u t [] = refl
count-insert less u t (s ∷ l) = ground (arith, count-insert less u t l)

-- Only the keys of the elements matter.
module _ (f g : ℕ → ℕ) where
  Above-ext :
      (n : ℕ) (l : List ℕ) → ((s : ℕ) → count s l ≢ 0 → f s ≡ g s) → Above f n l → Above g n l
  Above-ext n [] same a = tt
  Above-ext n (s ∷ l) same (a, b) =
      (omega (arith, same s (ground arith)), Above-ext n l (λ u h. same u (ground arith)) b)

  pub IsSorted-ext :
      (l : List ℕ) → ((s : ℕ) → count s l ≢ 0 → f s ≡ g s) → IsSorted f l → IsSorted g l
  IsSorted-ext [] same h = tt
  IsSorted-ext (s ∷ l) same (a, h) = (
    rw (← same s (ground arith)) (Above-ext (f s) l (λ u n. same u (ground arith)) a),
    IsSorted-ext l (λ u n. same u (ground arith)) h,
  )
