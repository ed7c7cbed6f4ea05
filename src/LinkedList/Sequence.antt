-- ===== src/LinkedList/Sequence.antt =====
-- What insertion and removal do to the sequence of elements of a list.
use mathlib.Core.Path.{subst}
use course_archive.Prelude.{
  ℕ, ◌≡◌, refl, sym, ◌∙◌, ap, false, List, [], ◌∷◌, ◌++◌, ◌==◌, arith, Returns,
}
use course_archive.LinkedList.{Links, head_of, tail_of, list_init, list_insert, list_remove}
use course_archive.LinkedList.Chain.{has}
use course_archive.LinkedList.Shape.{
  nodes, Linked, IsList, first_of, after, Elsewhere, Snoc, nodes-gap, nodes-between, has-tail,
}
use course_archive.LinkedList.Insert.{Linked-insert}
use course_archive.LinkedList.Remove.{Linked-remove}

module _ {m : Links} {list : ℕ} (xs ys : List ℕ) (e : ℕ) where
  -- `list_insert` of an element that is not in the list, before the first of `ys` or before the
  -- tail, puts it between `xs` and `ys`, and changes no other list.
  pub list_insert-IsList :
      IsList m list (xs ++ ys)
      → has e (nodes list (xs ++ ys)) ≡ false
      → (e == 0) ≡ false
      → Returns
          (λ m'. IsList m' list (xs ++ e ∷ ys) × Elsewhere m m' (e ∷ nodes list (xs ++ ys)))
          (list_insert m (first_of ys (tail_of list)) e)
  list_insert-IsList h fresh real =
      let (us, a, same) = Snoc (head_of list) xs in
      let t = tail_of list in
      let gap = nodes-gap list xs ys us a same in
      let (m', run, (linked, elsewhere)) =
        Linked-insert m us (after ys t) a (first_of ys t) list e (subst (Linked m list) gap h)
          (ap (has e) (sym gap) ∙ fresh) real (ground (arith, fresh))
          (ground (arith, fresh, has-tail list (xs ++ ys))) in
      (
        m',
        run,
        (
          subst (Linked m' list) (sym (nodes-between list xs ys us a e same)) linked,
          subst (λ l. Elsewhere m m' (e ∷ l)) (sym gap) elsewhere,
        ),
      )

  -- `list_remove` of an element between `xs` and `ys` leaves these, returns what came after the
  -- element, and changes no other list.
  pub list_remove-IsList :
      IsList m list (xs ++ e ∷ ys)
      → Returns
          (λ (n, m').
            (n ≡ first_of ys (tail_of list))
            × IsList m' list (xs ++ ys)
            × Elsewhere m m' (nodes list (xs ++ e ∷ ys)))
          (list_remove m e)
  list_remove-IsList h =
      let (us, a, same) = Snoc (head_of list) xs in
      let t = tail_of list in
      let between = nodes-between list xs ys us a e same in
      let ((n, m'), run, (back, linked, elsewhere)) =
        Linked-remove m us (after ys t) a e (first_of ys t) list
          (subst (Linked m list) between h) in
      (
        (n, m'),
        run,
        (
          back,
          subst (Linked m' list) (sym (nodes-gap list xs ys us a same)) linked,
          subst (Elsewhere m m') (sym between) elsewhere,
        ),
      )

-- `list_init` makes an empty list.
pub list_init-IsList :
    (m : Links) (list : ℕ)
    → (list == 0) ≡ false
    → Returns (λ m'. IsList m' list []) (list_init m list)
unfolding list_init
list_init-IsList m list real = rw real (
  _,
  refl,
  record {
    chain = (ground arith, ground arith, tt);
    front = ground arith;
    back = ground arith;
    distinct = (ground arith, (refl, tt));
    real = ground (arith, real);
  },
)
