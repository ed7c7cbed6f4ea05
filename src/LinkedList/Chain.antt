-- ===== src/LinkedList/Chain.antt =====
-- Nodes that are linked one after the other, both ways.
use course_archive.Prelude.{
  ℕ, ◌≡◌, refl, ◌∙◌, Bool, true, false, ◌||◌, List, [], ◌∷◌, ◌++◌, ◌==◌, arith,
}
use course_archive.LinkedList.{Links}

abbrev pub has : ℕ → List ℕ → Bool
has p [] = false
has p (q ∷ l) = (p == q) || has p l

abbrev pub Distinct : List ℕ → Type 0
Distinct [] = Unit
Distinct (p ∷ l) = (has p l ≡ false) × Distinct l

pub has-append : (p : ℕ) (xs ys : List ℕ) → has p (xs ++ ys) ≡ (has p xs || has p ys)
has-append p [] ys = refl
has-append p (x ∷ xs) ys = ground (arith, has-append p xs ys)

pub Distinct-left : (xs ys : List ℕ) → Distinct (xs ++ ys) → Distinct xs
Distinct-left [] ys d = tt
Distinct-left (x ∷ xs) ys (out, d) = (ground (arith, has-append x xs ys), Distinct-left xs ys d)

pub Distinct-right : (xs ys : List ℕ) → Distinct (xs ++ ys) → Distinct ys
Distinct-right [] ys d = d
Distinct-right (x ∷ xs) ys (_, d) = Distinct-right xs ys d

-- What is in the first part is not in the second.
pub Distinct-apart :
    (xs ys : List ℕ) (p : ℕ) → Distinct (xs ++ ys) → has p xs ≡ true → has p ys ≡ false
Distinct-apart [] ys p d i = absurd (ground arith)
Distinct-apart (x ∷ xs) ys p (out, d) i =
    ground (arith, Distinct-apart xs ys p d, has-append x xs ys)

pub Distinct-append :
    (xs ys : List ℕ)
    → Distinct xs
    → Distinct ys
    → ((p : ℕ) → has p xs ≡ true → has p ys ≡ false)
    → Distinct (xs ++ ys)
Distinct-append [] ys d e apart = e
Distinct-append (x ∷ xs) ys (out, d) e apart = (
  has-append x xs ys ∙ rw (out, apart x (ground arith)) refl,
  Distinct-append xs ys d e (λ p i. apart p (ground arith)),
)

-- Each node's links lead to its neighbours.
abbrev pub Chain : Links → List ℕ → Type 0
Chain m [] = Unit
Chain m (a ∷ []) = Unit
Chain m (a ∷ b ∷ l) = (m.next a ≡ b) × (m.prev b ≡ a) × Chain m (b ∷ l)

module _ (m : Links) where
  pub Chain-split :
      (us : List ℕ) (a : ℕ) (vs : List ℕ)
      → Chain m (us ++ a ∷ vs)
      → Chain m (us ++ a ∷ []) × Chain m (a ∷ vs)
  Chain-split [] a vs c = (tt, c)
  Chain-split (u ∷ []) a vs (n, p, c) = ((n, p, tt), c)
  Chain-split (u ∷ w ∷ us) a vs (n, p, c) =
      let (left, right) = Chain-split (w ∷ us) a vs c in ((n, p, left), right)

  pub Chain-join :
      (us : List ℕ) (a : ℕ) (vs : List ℕ)
      → Chain m (us ++ a ∷ [])
      → Chain m (a ∷ vs)
      → Chain m (us ++ a ∷ vs)
  Chain-join [] a vs c d = d
  Chain-join (u ∷ []) a vs (n, p, c) d = (n, p, d)
  Chain-join (u ∷ w ∷ us) a vs (n, p, c) d = (n, p, Chain-join (w ∷ us) a vs c d)

module _ (m m' : Links) where
  -- The last node's `next` and the first node's `prev` do not matter.
  pub Chain-front :
      (us : List ℕ) (a : ℕ)
      → Chain m (us ++ a ∷ [])
      → ((p : ℕ) → has p us ≡ true → m'.next p ≡ m.next p)
      → ((p : ℕ) → has p (us ++ a ∷ []) ≡ true → m'.prev p ≡ m.prev p)
      → Chain m' (us ++ a ∷ [])
  Chain-front [] a c n p = tt
  Chain-front (u ∷ []) a (cn, cp, c) n p = (n u (ground arith) ∙ cn, p a (ground arith) ∙ cp, tt)
  Chain-front (u ∷ w ∷ us) a (cn, cp, c) n p = (
    n u (ground arith) ∙ cn,
    p w (ground arith) ∙ cp,
    Chain-front (w ∷ us) a c (λ q i. n q (ground arith)) (λ q i. p q (ground arith)),
  )

  pub Chain-back :
      (a : ℕ) (vs : List ℕ)
      → Chain m (a ∷ vs)
      → ((p : ℕ) → has p (a ∷ vs) ≡ true → m'.next p ≡ m.next p)
      → ((p : ℕ) → has p vs ≡ true → m'.prev p ≡ m.prev p)
      → Chain m' (a ∷ vs)
  Chain-back a [] c n p = tt
  Chain-back a (v ∷ vs) (cn, cp, c) n p = (
    n a (ground arith) ∙ cn,
    p v (ground arith) ∙ cp,
    Chain-back v vs c (λ q i. n q (ground arith)) (λ q i. p q (ground arith)),
  )
