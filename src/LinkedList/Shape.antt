-- ===== src/LinkedList/Shape.antt =====
-- A list in memory: its head, the elements in order and its tail, linked both ways.
use mathlib.Core.List.{append_assoc}
use course_archive.Prelude.{
  ℕ, ◌≡◌, refl, ◌∙◌, ap, true, false, ◌||◌, some, List, [], ◌∷◌, ◌++◌, ◌==◌, Bool-cases, inl, inr,
  arith,
}
use course_archive.LinkedList.{Links, head_of, tail_of, is_interior, is_tail, list_next, list_prev}
use course_archive.LinkedList.Chain.{has, Distinct, has-append, Chain, Chain-split}

-- The addresses of a list, in order.
abbrev pub nodes : ℕ → List ℕ → List ℕ
nodes list xs = head_of list ∷ (xs ++ tail_of list ∷ [])

-- A list with the nodes `ns`.
pub record Linked (m : Links) (list : ℕ) (ns : List ℕ) : Type 0 where
  pub chain : Chain m ns
  pub front : m.prev (head_of list) ≡ 0
  pub back : m.next (tail_of list) ≡ 0
  pub distinct : Distinct ns
  pub real : has 0 ns ≡ false

-- `list` is a list with the elements `xs`.
abbrev pub IsList : Links → ℕ → List ℕ → Type 0
IsList m list xs = Linked m list (nodes list xs)

-- The first of `ys`, or what comes after them.
abbrev pub first_of : List ℕ → ℕ → ℕ
first_of [] t = t
first_of (y ∷ ys) t = y

-- Memory is the same outside `ns`.
abbrev pub Elsewhere : Links → Links → List ℕ → Type 0
Elsewhere m m' ns = (p : ℕ) → has p ns ≡ false → (m'.next p ≡ m.next p) × (m'.prev p ≡ m.prev p)

-- The last node of a part.
pub Snoc : (h : ℕ) (xs : List ℕ) → (us : List ℕ) × (a : ℕ) × (h ∷ xs ≡ us ++ a ∷ [])
Snoc h [] = ([], h, refl)
Snoc h (x ∷ xs) = let (us, a, e) = Snoc x xs in (h ∷ us, a, ap (λ l. h ∷ l) e)

pub nodes-at :
    (list : ℕ) (xs ys us : List ℕ) (a : ℕ)
    → head_of list ∷ xs ≡ us ++ a ∷ []
    → nodes list (xs ++ ys) ≡ us ++ a ∷ (ys ++ tail_of list ∷ [])
nodes-at list xs ys us a e =
    ap (λ l. list ∷ l) (append_assoc xs ys (tail_of list ∷ []))
    ∙ ap (λ l. l ++ (ys ++ tail_of list ∷ [])) e
    ∙ append_assoc us (a ∷ []) (ys ++ tail_of list ∷ [])

-- The neighbours of a place in a chain.
pub next-at :
    (m : Links) (us : List ℕ) (a b : ℕ) (vs : List ℕ) → Chain m (us ++ a ∷ b ∷ vs) → m.next a ≡ b
next-at m us a b vs c = let (_, (n, _, _)) = Chain-split m us a (b ∷ vs) c in n

pub prev-at :
    (m : Links) (us : List ℕ) (a b : ℕ) (vs : List ℕ) → Chain m (us ++ a ∷ b ∷ vs) → m.prev b ≡ a
prev-at m us a b vs c = let (_, (_, p, _)) = Chain-split m us a (b ∷ vs) c in p

-- The assertions on nodes hold for those with neighbours.
module _ (m : Links) where
  pub has_prev-passes :
      (e : ℕ) → (e == 0) ≡ false → (m.prev e == 0) ≡ false → (is_interior m e || is_tail m e) ≡ true
  has_prev-passes e real linked = elim (Bool-cases (m.next e == 0)) [
    | inl last ↦ rw (real, linked, last) refl
    | inr inside ↦ rw (real, linked, inside) refl
  ]

  pub list_next-some :
      (a b : ℕ) → (a == 0) ≡ false → (b == 0) ≡ false → m.next a ≡ b → list_next m a ≡ some b
  unfolding list_next
  list_next-some a b real real' e = elim (Bool-cases (m.prev a == 0)) [
    | inl first ↦ rw (e, real, real', first) refl
    | inr inside ↦ rw (e, real, real', inside) refl
  ]

  pub list_prev-some :
      (a b : ℕ) → (a == 0) ≡ false → (b == 0) ≡ false → m.prev b ≡ a → list_prev m b ≡ some a
  unfolding list_prev
  list_prev-some a b real real' e = elim (Bool-cases (m.next b == 0)) [
    | inl last ↦ rw (e, real, real', last) refl
    | inr inside ↦ rw (e, real, real', inside) refl
  ]

-- The rest of `ys` and `t` after the first.
abbrev pub after : List ℕ → ℕ → List ℕ
after [] t = []
after (y ∷ ys) t = ys ++ t ∷ []

pub first_of-after : (ys : List ℕ) (t : ℕ) → ys ++ t ∷ [] ≡ first_of ys t ∷ after ys t
first_of-after [] t = refl
first_of-after (y ∷ ys) t = refl

pub nodes-gap :
    (list : ℕ) (xs ys us : List ℕ) (a : ℕ)
    → head_of list ∷ xs ≡ us ++ a ∷ []
    → nodes list (xs ++ ys) ≡ us ++ a ∷ first_of ys (tail_of list) ∷ after ys (tail_of list)
nodes-gap list xs ys us a e =
    nodes-at list xs ys us a e ∙ ap (λ l. us ++ a ∷ l) (first_of-after ys (tail_of list))

pub nodes-between :
    (list : ℕ) (xs ys us : List ℕ) (a e : ℕ)
    → head_of list ∷ xs ≡ us ++ a ∷ []
    → nodes list (xs ++ e ∷ ys) ≡ us ++ a ∷ e ∷ first_of ys (tail_of list) ∷ after ys (tail_of list)
nodes-between list xs ys us a e same =
    nodes-at list xs (e ∷ ys) us a same
    ∙ ap (λ l. us ++ a ∷ e ∷ l) (first_of-after ys (tail_of list))

pub has-tail : (list : ℕ) (xs : List ℕ) → has (tail_of list) (nodes list xs) ≡ true
has-tail list xs = ground (arith, has-append (tail_of list) xs (tail_of list ∷ []))
