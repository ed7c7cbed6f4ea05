-- ===== src/LinkedList/Insert.antt =====
-- `list_insert` puts a node into a chain.
use course_archive.Prelude.{
  ℕ, ◌≡◌, refl, ◌∙◌, false, ◌||◌, some, List, [], ◌∷◌, ◌++◌, ◌==◌, if◌then◌else◌, arith, Returns,
}
use course_archive.LinkedList.{Links, head_of, tail_of, list_insert}
use course_archive.LinkedList.Chain.{
  has, Distinct, has-append, Distinct-left, Distinct-right, Distinct-apart, Distinct-append, Chain,
  Chain-split, Chain-join, Chain-front, Chain-back,
}
use course_archive.LinkedList.Shape.{Linked, Elsewhere, next-at, prev-at, has_prev-passes}

-- `e` between `a` and `b`
abbrev pub inserted : Links → ℕ → ℕ → ℕ → Links
inserted m a e b = record {
  prev = λ p. if p == b then e else (if p == e then a else m.prev p);
  next = λ p. if p == a then e else (if p == e then b else m.next p);
}

list_insert-some :
    (m : Links) (a b e : ℕ)
    → (b == 0) ≡ false
    → (a == 0) ≡ false
    → (e == 0) ≡ false
    → (b == e) ≡ false
    → m.prev b ≡ a
    → list_insert m b e ≡ some (inserted m a e b)
unfolding list_insert
list_insert-some m a b e real_b real_a real_e other before =
    let passes = has_prev-passes m b real_b (rw (before, real_a) refl) in
    rw (passes, real_e, other, before) refl

module _ (m : Links) (us vs : List ℕ) (a b : ℕ) where
  inserted-Chain :
      (e : ℕ)
      → Chain m (us ++ a ∷ b ∷ vs)
      → Distinct (us ++ a ∷ b ∷ vs)
      → has e (us ++ a ∷ b ∷ vs) ≡ false
      → Chain (inserted m a e b) (us ++ a ∷ e ∷ b ∷ vs)
  inserted-Chain e c d fresh =
      let (left, (_, _, right)) = Chain-split m us a (b ∷ vs) c in
      let m' = inserted m a e b in
      let (not_a, (not_b, _)) = Distinct-right us (a ∷ b ∷ vs) d in
      Chain-join m' us a (e ∷ b ∷ vs)
        (Chain-front m m' us a left
          (λ p i.
            ground (arith, Distinct-apart us (a ∷ b ∷ vs) p d i, has-append e us (a ∷ b ∷ vs)))
          (λ p i. ground (
            arith,
            Distinct-apart us (a ∷ b ∷ vs) p d,
            has-append p us (a ∷ []),
            has-append e us (a ∷ b ∷ vs),
          )))
        (
          ground arith,
          ground (arith, has-append e us (a ∷ b ∷ vs)),
          (
            ground (arith, has-append e us (a ∷ b ∷ vs)),
            ground arith,
            Chain-back m m' b vs right (λ p i. ground (arith, has-append e us (a ∷ b ∷ vs)))
                (λ p i. ground (arith, has-append e us (a ∷ b ∷ vs))),
          ),
        )

  inserted-Distinct :
      (e : ℕ)
      → Distinct (us ++ a ∷ b ∷ vs)
      → has e (us ++ a ∷ b ∷ vs) ≡ false
      → Distinct (us ++ a ∷ e ∷ b ∷ vs)
  inserted-Distinct e d fresh =
      let (not_a, right) = Distinct-right us (a ∷ b ∷ vs) d in
      Distinct-append us (a ∷ e ∷ b ∷ vs) (Distinct-left us (a ∷ b ∷ vs) d)
        (
          ground (arith, has-append e us (a ∷ b ∷ vs)),
          (ground (arith, has-append e us (a ∷ b ∷ vs)), right),
        )
        (λ p i. ground (arith, Distinct-apart us (a ∷ b ∷ vs) p d, has-append e us (a ∷ b ∷ vs)))

  has-inserted : (e p : ℕ) → has p (us ++ a ∷ e ∷ b ∷ vs) ≡ (p == e) || has p (us ++ a ∷ b ∷ vs)
  has-inserted e p = ground (arith, has-append p us (a ∷ b ∷ vs), has-append p us (a ∷ e ∷ b ∷ vs))

  -- What is between two real nodes.
  inside : has 0 (us ++ a ∷ b ∷ vs) ≡ false → ((a == 0) ≡ false) × ((b == 0) ≡ false)
  inside real =
      (ground (arith, has-append 0 us (a ∷ b ∷ vs)), ground (arith, has-append 0 us (a ∷ b ∷ vs)))

  pub Linked-insert :
      (list e : ℕ)
      → Linked m list (us ++ a ∷ b ∷ vs)
      → has e (us ++ a ∷ b ∷ vs) ≡ false
      → (e == 0) ≡ false
      → (head_of list == e) ≡ false
      → (tail_of list == e) ≡ false
      → Returns
          (λ m'. Linked m' list (us ++ a ∷ e ∷ b ∷ vs) × Elsewhere m m' (e ∷ (us ++ a ∷ b ∷ vs)))
          (list_insert m b e)
  Linked-insert list e h fresh real_e not_head not_tail =
      let (real_a, real_b) = inside h.real in
      let n = next-at m us a b vs h.chain in
      let p = prev-at m us a b vs h.chain in
      (
        _,
        list_insert-some m a b e real_b real_a real_e (ground (arith, has-append e us (a ∷ b ∷ vs)))
            p,
        (
          record {
            chain = inserted-Chain e h.chain h.distinct fresh;
            front = ground (arith, h.front, p, real_a);
            back = ground (arith, h.back, n, real_b);
            distinct = inserted-Distinct e h.distinct fresh;
            real = has-inserted e 0 ∙ ground (arith, h.real);
          },
          λ q out. (
            ground (arith, has-append q us (a ∷ b ∷ vs)),
            ground (arith, has-append q us (a ∷ b ∷ vs)),
          ),
        ),
      )
