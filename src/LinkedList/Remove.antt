-- ===== src/LinkedList/Remove.antt =====
-- `list_remove` takes a node out of a chain.
use course_archive.Prelude.{
  ℕ, ◌≡◌, refl, false, some, List, [], ◌∷◌, ◌++◌, ◌==◌, if◌then◌else◌, arith, Returns,
}
use course_archive.LinkedList.{Links, list_remove}
use course_archive.LinkedList.Chain.{
  Distinct, has-append, Distinct-left, Distinct-right, Distinct-apart, Distinct-append, Chain,
  Chain-split, Chain-join, Chain-front, Chain-back,
}
use course_archive.LinkedList.Shape.{Linked, Elsewhere}

-- `a` and `b` as neighbours.
abbrev pub joined : Links → ℕ → ℕ → Links
joined m a b = record {
  prev = λ p. if p == b then a else m.prev p;
  next = λ p. if p == a then b else m.next p;
}

list_remove-some :
    (m : Links) (a e b : ℕ)
    → (a == 0) ≡ false
    → (e == 0) ≡ false
    → (b == 0) ≡ false
    → (e == a) ≡ false
    → m.prev e ≡ a
    → m.next e ≡ b
    → list_remove m e ≡ some (b, joined m a b)
unfolding list_remove
list_remove-some m a e b real_a real_e real_b not_a before behind =
    rw (before, behind, real_a, real_e, real_b, not_a) refl

module _ (m : Links) (us vs : List ℕ) (a e b : ℕ) where
  joined-Chain :
      Chain m (us ++ a ∷ e ∷ b ∷ vs)
      → Distinct (us ++ a ∷ e ∷ b ∷ vs)
      → Chain (joined m a b) (us ++ a ∷ b ∷ vs)
  joined-Chain c d =
      let (left, (_, _, (_, _, right))) = Chain-split m us a (e ∷ b ∷ vs) c in
      let m' = joined m a b in
      let (not_a, (not_e, (not_b, _))) = Distinct-right us (a ∷ e ∷ b ∷ vs) d in
      Chain-join m' us a (b ∷ vs)
        (Chain-front m m' us a left
          (λ p i. ground (arith, Distinct-apart us (a ∷ e ∷ b ∷ vs) p d i))
          (λ p i. ground (arith, Distinct-apart us (a ∷ e ∷ b ∷ vs) p d, has-append p us (a ∷ []))))
        (
          ground arith,
          ground arith,
          Chain-back m m' b vs right (λ p i. ground arith) (λ p i. ground arith),
        )

  joined-Distinct : Distinct (us ++ a ∷ e ∷ b ∷ vs) → Distinct (us ++ a ∷ b ∷ vs)
  joined-Distinct d =
      let (not_a, (not_e, right)) = Distinct-right us (a ∷ e ∷ b ∷ vs) d in
      Distinct-append us (a ∷ b ∷ vs) (Distinct-left us (a ∷ e ∷ b ∷ vs) d) (ground arith, right)
        (λ p i. ground (arith, Distinct-apart us (a ∷ e ∷ b ∷ vs) p d))

  pub Linked-remove :
      (list : ℕ)
      → Linked m list (us ++ a ∷ e ∷ b ∷ vs)
      → Returns
          (λ (n, m').
            (n ≡ b) × Linked m' list (us ++ a ∷ b ∷ vs) × Elsewhere m m' (us ++ a ∷ e ∷ b ∷ vs))
          (list_remove m e)
  Linked-remove list h =
      let (_, (n_a, p_e, (n_e, p_b, _))) = Chain-split m us a (e ∷ b ∷ vs) h.chain in
      let (not_a, (not_e, _)) = Distinct-right us (a ∷ e ∷ b ∷ vs) h.distinct in
      let real_a : (a == 0) ≡ false = ground (arith, h.real, has-append 0 us (a ∷ e ∷ b ∷ vs)) in
      let real_e : (e == 0) ≡ false = ground (arith, h.real, has-append 0 us (a ∷ e ∷ b ∷ vs)) in
      let real_b : (b == 0) ≡ false = ground (arith, h.real, has-append 0 us (a ∷ e ∷ b ∷ vs)) in
      (
        _,
        list_remove-some m a e b real_a real_e real_b (ground arith) p_e n_e,
        (
          refl,
          record {
            chain = joined-Chain h.chain h.distinct;
            front = ground (arith, h.front, p_b, real_e);
            back = ground (arith, h.back, n_a, real_e);
            distinct = joined-Distinct h.distinct;
            real =
                ground
                  (arith, h.real, has-append 0 us (a ∷ e ∷ b ∷ vs), has-append 0 us (a ∷ b ∷ vs));
          },
          λ q out. (
            ground (arith, has-append q us (a ∷ e ∷ b ∷ vs)),
            ground (arith, has-append q us (a ∷ e ∷ b ∷ vs)),
          ),
        ),
      )
