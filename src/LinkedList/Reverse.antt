-- ===== src/LinkedList/Reverse.antt =====
-- `list_reverse` in memory.
use mathlib.Core.Path.{subst}
use mathlib.Core.List.{reverse, reverse-cons, append_assoc}
use course_archive.Prelude.{
  ℕ, zero, suc, ◌+◌, ◌≤◌, ◌≡◌, refl, sym, ◌∙◌, ap, true, false, some, List, [], ◌∷◌, ◌++◌, ◌==◌,
  if◌then◌else◌, length, arith, Returns,
}
use course_archive.LinkedList.{Links, head_of, tail_of, set_prev, set_next, reverse_loop, swap_ends}
use course_archive.LinkedList.Chain.{
  has, Distinct, has-append, Distinct-append, Chain, Chain-join, Chain-back,
}
use course_archive.LinkedList.Shape.{first_of}
use course_archive.LinkedList.Walk.{Suffix, Suffix-rest}

-- The links of the elements `xs` are swapped.
pub record Swapped (m m' : Links) (xs : List ℕ) : Type 0 where
  pub next : (p : ℕ) → m'.next p ≡ (if has p xs then m.prev p else m.next p)
  pub prev : (p : ℕ) → m'.prev p ≡ (if has p xs then m.next p else m.prev p)

abbrev swapped_at : Links → ℕ → Links
swapped_at m e = set_next (set_prev m e (m.next e)) e (m.prev e)

module _ {m : Links} {t : ℕ} (y : ℕ) where
  Suffix-swapped :
      (ys : List ℕ) → Suffix m t (y ∷ ys) → has y ys ≡ false → Suffix (swapped_at m y) t ys
  Suffix-swapped ys s out =
      let rest = Suffix-rest s in
      record { chain = chain ys rest.chain out; apart = rest.apart; real = rest.real }
    where
      not_end : (y == t) ≡ false
      not_end = ground (arith, s.apart)

      chain :
          (zs : List ℕ)
          → Chain m (zs ++ t ∷ [])
          → has y zs ≡ false
          → Chain (swapped_at m y) (zs ++ t ∷ [])
      chain [] c o = tt
      chain (z ∷ zs) c o =
          Chain-back m (swapped_at m y) z (zs ++ t ∷ []) c
            (λ p i. ground (arith, not_end, has-append p zs (t ∷ []), has-append y zs (t ∷ [])))
            (λ p i. ground (arith, not_end, has-append p zs (t ∷ []), has-append y zs (t ∷ [])))

  next-first_of : (ys : List ℕ) → Suffix m t (y ∷ ys) → m.next y ≡ first_of ys t
  next-first_of [] s = let (n, _, _) = s.chain in n
  next-first_of (z ∷ ys) s = let (n, _, _) = s.chain in n

pub reverse_loop-Swapped :
    (fuel : ℕ) {m : Links} {t : ℕ} (ys : List ℕ)
    → length ys ≤ fuel
    → Suffix m t ys
    → Distinct ys
    → Returns (λ m'. Swapped m m' ys) (reverse_loop fuel m t (first_of ys t))
unfolding reverse_loop
reverse_loop-Swapped zero {m} {t} [] le s d =
    let done : (t == t) ≡ true = ground arith in
    rw done (m, refl, record { next = λ p. refl; prev = λ p. refl })
reverse_loop-Swapped zero {m} {t} (y ∷ ys) le s d = absurd (omega arith)
reverse_loop-Swapped (suc fuel) {m} {t} [] le s d =
    let done : (t == t) ≡ true = ground arith in
    rw done (m, refl, record { next = λ p. refl; prev = λ p. refl })
reverse_loop-Swapped (suc fuel) {m} {t} (y ∷ ys) le s (out, d) =
    let more : (y == t) ≡ false = ground (arith, s.apart) in
    let real : (y == 0) ≡ false = ground (arith, s.real) in
    let self : (y == y) ≡ true = ground arith in
    let (m', run, w) = reverse_loop-Swapped fuel ys (omega arith) (Suffix-swapped y ys s out) d in
    (
      m',
      rw (more, real, self)
          (ap (λ q. reverse_loop fuel (swapped_at m y) t q) (next-first_of y ys s) ∙ run),
      record {
        next = λ p. w.next p ∙ ground (arith, out);
        prev = λ p. w.prev p ∙ ground (arith, out);
      },
    )

pub has-reverse : (p : ℕ) (xs : List ℕ) → has p (reverse xs) ≡ has p xs
has-reverse p [] = refl
has-reverse p (x ∷ xs) =
    ap (has p) (reverse-cons x xs)
    ∙ has-append p (reverse xs) (x ∷ [])
    ∙ ground (arith, has-reverse p xs)

pub Distinct-reverse : (xs : List ℕ) → Distinct xs → Distinct (reverse xs)
Distinct-reverse [] d = tt
Distinct-reverse (x ∷ xs) (out, d) = subst Distinct (sym (reverse-cons x xs)) (
    Distinct-append (reverse xs) (x ∷ []) (Distinct-reverse xs d) (refl, tt)
      (λ p i. ground (arith, has-reverse p xs, out)))

-- A chain in the other direction.
pub Chain-reverse :
    (m m' : Links) (xs : List ℕ)
    → Chain m xs
    → ((a b : ℕ)
        → m.next a ≡ b
        → m.prev b ≡ a
        → has a xs ≡ true
        → has b xs ≡ true
        → (m'.prev a ≡ b) × (m'.next b ≡ a))
    → Chain m' (reverse xs)
Chain-reverse m m' [] c turn = tt
Chain-reverse m m' (a ∷ []) c turn = tt
Chain-reverse m m' (a ∷ b ∷ l) (n, p, c) turn =
    let (p', n') = turn a b n p (ground arith) (ground arith) in
    let back =
      Chain-reverse m m' (b ∷ l) c (λ q r e e' i j. turn q r e e' (ground arith) (ground arith)) in
    subst (Chain m')
      (sym (
        reverse-cons a (b ∷ l)
        ∙ ap (λ k. k ++ a ∷ []) (reverse-cons b l)
        ∙ append_assoc (reverse l) (b ∷ []) (a ∷ [])))
      (Chain-join m' (reverse l) b (a ∷ []) (subst (Chain m') (reverse-cons b l) back) (n', p', tt))

pub Chain-init : (m : Links) (xs : List ℕ) (t : ℕ) → Chain m (xs ++ t ∷ []) → Chain m xs
Chain-init m [] t c = tt
Chain-init m (a ∷ []) t c = tt
Chain-init m (a ∷ b ∷ l) t (n, p, c) = (n, p, Chain-init m (b ∷ l) t c)

-- The links after `list_reverse`, for a list whose first and last elements are `x` and `z`.
abbrev pub turned : Links → ℕ → ℕ → ℕ → Links
turned m list x z = record {
  prev = λ p. if p == z then head_of list else (if p == tail_of list then x else m.prev p);
  next = λ p. if p == x then tail_of list else (if p == head_of list then z else m.next p);
}

pub swap_ends-some :
    (m : Links) (list x z : ℕ)
    → m.prev (tail_of list) ≡ z
    → m.next (head_of list) ≡ x
    → m.next x ≡ head_of list
    → m.prev z ≡ tail_of list
    → (x == 0) ≡ false
    → (z == 0) ≡ false
    → (x == head_of list) ≡ false
    → (z == tail_of list) ≡ false
    → swap_ends m list ≡ some (turned m list x z)
unfolding swap_ends
swap_ends-some m list x z last start turn_x turn_z real_x real_z not_head not_tail =
    let self : (list == list) ≡ true = ground arith in
    let self' : (list + 8 == list + 8) ≡ true = ground arith in
    rw (last, start, self, self', real_x, real_z, not_head, not_tail, turn_x, turn_z) refl
