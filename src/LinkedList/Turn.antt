-- ===== src/LinkedList/Turn.antt =====
-- `list_reverse` reverses the sequence of elements.
use mathlib.Core.Path.{subst}
use mathlib.Core.List.{reverse, reverse-cons, reverse-append, append_assoc}
use course_archive.Prelude.{
  ℕ, ◌+◌, ◌^◌, ◌<◌, ◌≡◌, refl, sym, ◌∙◌, ap, Bool, true, false, some, List, [], ◌∷◌, ◌++◌, ◌==◌,
  length, Bool-cases, inl, inr, arith, Returns,
}
use course_archive.LinkedList.{
  Links, head_of, tail_of, max_elems, reverse_loop, swap_ends, list_reverse,
}
use course_archive.LinkedList.Chain.{
  has, Distinct, has-append, Distinct-append, Distinct-left, Chain, Chain-join,
}
use course_archive.LinkedList.Shape.{nodes, IsList, Elsewhere, Snoc, next-at, prev-at}
use course_archive.LinkedList.Walk.{Linked-Suffix, real_list, begin-first_of}
use course_archive.LinkedList.Reverse.{
  Swapped, turned, reverse_loop-Swapped, has-reverse, Distinct-reverse, Chain-reverse, Chain-init,
  swap_ends-some,
}

-- The neighbours of the ends of a list that is not empty.
record Ends (m : Links) (list : ℕ) (xs : List ℕ) (x z : ℕ) : Type 0 where
  first : m.next (head_of list) ≡ x
  last : m.prev (tail_of list) ≡ z
  before : m.prev x ≡ head_of list
  behind : m.next z ≡ tail_of list
  has_first : has x xs ≡ true
  has_last : has z xs ≡ true
  no_head : has (head_of list) xs ≡ false
  no_tail : has (tail_of list) xs ≡ false
  no_null : has 0 xs ≡ false

Ends-of :
    {m : Links} {list : ℕ} (x z : ℕ) (l us : List ℕ)
    → x ∷ l ≡ us ++ z ∷ []
    → IsList m list (x ∷ l)
    → Ends m list (x ∷ l) x z
Ends-of {m} {list} x z l us e h =
    let (n, p, c) = h.chain in
    let (out, _) = h.distinct in
    let whole : nodes list (x ∷ l) ≡ (head_of list ∷ us) ++ z ∷ tail_of list ∷ [] =
      ap (λ k. list ∷ (k ++ tail_of list ∷ [])) e
      ∙ ap (λ k. list ∷ k) (append_assoc us (z ∷ []) (tail_of list ∷ [])) in
    let c' : Chain m ((head_of list ∷ us) ++ z ∷ tail_of list ∷ []) =
      subst (Chain m) whole h.chain in
    record {
      first = n;
      last = prev-at m (head_of list ∷ us) z (tail_of list) [] c';
      before = p;
      behind = next-at m (head_of list ∷ us) z (tail_of list) [] c';
      has_first = ground arith;
      has_last = ap (has z) e ∙ has-append z us (z ∷ []) ∙ ground arith;
      no_head = ground (arith, out, has-append (head_of list) l (tail_of list ∷ []));
      no_tail = let s = Linked-Suffix (x ∷ l) h in s.apart;
      no_null = ground (arith, h.real, has-append 0 l (tail_of list ∷ []));
    }

-- Numbers that a test tells apart.
apart_by : (P : ℕ → Bool) (a b : ℕ) → P a ≡ true → P b ≡ false → (a == b) ≡ false
apart_by P a b i out = elim (Bool-cases (a == b)) [
  | inl same ↦ let e : a ≡ b = ground (arith, same) in absurd (ground (arith, ap P e, i, out))
  | inr other ↦ other
]

has-ne : (xs : List ℕ) (a b : ℕ) → has a xs ≡ true → has b xs ≡ false → (a == b) ≡ false
has-ne xs a b = apart_by (λ k. has k xs) a b

module _ (m m' : Links) (list : ℕ) (xs : List ℕ) (x z : ℕ) (h : IsList m list xs)
    (ends : Ends m list xs x z) (w : Swapped m m' xs) where
  swap_ends-turned : swap_ends m' list ≡ some (turned m' list x z)
  swap_ends-turned =
      swap_ends-some m' list x z (w.prev (tail_of list) ∙ rw (ends.no_tail) (ends.last))
        (w.next (head_of list) ∙ rw (ends.no_head) (ends.first))
        (w.next x ∙ rw (ends.has_first) (ends.before)) (w.prev z ∙ rw (ends.has_last) (ends.behind))
        (has-ne xs x 0 ends.has_first ends.no_null) (has-ne xs z 0 ends.has_last ends.no_null)
        (has-ne xs x (head_of list) ends.has_first ends.no_head)
        (has-ne xs z (tail_of list) ends.has_last ends.no_tail)

  -- Neighbours change places.
  turned-pair :
      (a b : ℕ)
      → m.next a ≡ b
      → m.prev b ≡ a
      → has a xs ≡ true
      → has b xs ≡ true
      → let m2 = turned m' list x z in (m2.prev a ≡ b) × (m2.next b ≡ a)
  turned-pair a b n p i j =
      let not_z : (a == z) ≡ false =
        apart_by (λ k. has (m.next k) xs) a z (ap (λ k. has k xs) n ∙ j)
          (ap (λ k. has k xs) ends.behind ∙ ends.no_tail) in
      let not_x : (b == x) ≡ false =
        apart_by (λ k. has (m.prev k) xs) b x (ap (λ k. has k xs) p ∙ i)
          (ap (λ k. has k xs) ends.before ∙ ends.no_head) in
      let not_t = has-ne xs a (tail_of list) i ends.no_tail in
      let not_h = has-ne xs b (head_of list) j ends.no_head in
      (rw (not_z, not_t) (w.prev a ∙ rw i n), rw (not_x, not_h) (w.next b ∙ rw j p))

  turned-Chain :
      (l us : List ℕ)
      → xs ≡ x ∷ l
      → xs ≡ us ++ z ∷ []
      → Chain m xs
      → Chain (turned m' list x z) (nodes list (reverse xs))
  turned-Chain l us ex ez c =
      let m2 = turned m' list x z in
      let back = Chain-reverse m m2 xs c turned-pair in
      let starts : reverse xs ≡ z ∷ reverse us = ap reverse ez ∙ reverse-append us (z ∷ []) in
      let ends_x : reverse xs ≡ reverse l ++ x ∷ [] = ap reverse ex ∙ reverse-cons x l in
      let not_first = has-ne xs x (head_of list) ends.has_first ends.no_head in
      let front : Chain m2 (head_of list ∷ reverse xs) =
        subst (λ k. Chain m2 (head_of list ∷ k)) (sym starts)
          (ground (arith, not_first), ground arith, subst (Chain m2) starts back) in
      let whole : nodes list (reverse xs) ≡ (head_of list ∷ reverse l) ++ x ∷ tail_of list ∷ [] =
        ap (λ k. list ∷ (k ++ tail_of list ∷ [])) ends_x
        ∙ ap (λ k. list ∷ k) (append_assoc (reverse l) (x ∷ []) (tail_of list ∷ [])) in
      subst (Chain m2) (sym whole) (
        Chain-join m2 (head_of list ∷ reverse l) x (tail_of list ∷ [])
          (subst (λ k. Chain m2 (head_of list ∷ k)) ends_x front)
          (ground arith, ground (arith, has-ne xs z (tail_of list) ends.has_last ends.no_tail), tt))

  reverse-nodes : Distinct (nodes list (reverse xs))
  reverse-nodes =
      let (out, d) = h.distinct in
      (
        has-append (head_of list) (reverse xs) (tail_of list ∷ [])
            ∙ ground (arith, has-reverse (head_of list) xs, ends.no_head),
        Distinct-append (reverse xs) (tail_of list ∷ [])
            (Distinct-reverse xs (Distinct-left xs (tail_of list ∷ []) d)) (refl, tt)
            (λ p i.
              ground (arith, has-ne xs p (tail_of list) (sym (has-reverse p xs) ∙ i) ends.no_tail)),
      )

  turned-IsList :
      (l us : List ℕ)
      → xs ≡ x ∷ l
      → xs ≡ us ++ z ∷ []
      → Chain m xs
      → IsList (turned m' list x z) list (reverse xs)
  turned-IsList l us ex ez c =
      let not_z = has-ne xs z (head_of list) ends.has_last ends.no_head in
      let not_x = has-ne xs x (tail_of list) ends.has_first ends.no_tail in
      record {
        chain = turned-Chain l us ex ez c;
        front = ground (arith, not_z, w.prev (head_of list), ends.no_head, h.front);
        back = ground (arith, not_x, w.next (tail_of list), ends.no_tail, h.back);
        distinct = reverse-nodes;
        real = ground (
          arith,
          has-append 0 (reverse xs) (tail_of list ∷ []),
          has-reverse 0 xs,
          h.real,
          ends.no_null,
        );
      }

  turned-Elsewhere : Elsewhere m (turned m' list x z) (nodes list xs)
  turned-Elsewhere p out =
      let not_in : has p xs ≡ false = ground (arith, out, has-append p xs (tail_of list ∷ [])) in
      let not_x = has-ne xs x p ends.has_first not_in in
      let not_z = has-ne xs z p ends.has_last not_in in
      (
        ground (arith, out, not_x, not_z, has-append p xs (tail_of list ∷ []), w.next p, not_in),
        ground (arith, out, not_x, not_z, has-append p xs (tail_of list ∷ []), w.prev p, not_in),
      )

list_reverse-some :
    (m m' m2 : Links) (list x : ℕ)
    → (list == 0) ≡ false
    → m.next (head_of list) ≡ x
    → (x == tail_of list) ≡ false
    → reverse_loop max_elems m (tail_of list) x ≡ some m'
    → swap_ends m' list ≡ some m2
    → list_reverse m list ≡ some m2
unfolding list_reverse
list_reverse-some m m' m2 list x real begins more loop ends =
    rw (real, begins, more, loop, ends) refl

-- `list_reverse` reverses the elements of a list of fewer than 2 ^ 32, and changes no other list.
pub list_reverse-IsList :
    {m : Links} {list : ℕ} (xs : List ℕ)
    → IsList m list xs
    → length xs < 2 ^ 32
    → Returns
        (λ m'. IsList m' list (reverse xs) × Elsewhere m m' (nodes list xs))
        (list_reverse m list)
unfolding list_reverse
list_reverse-IsList {m} {list} [] h small =
    let self : (list + 8 == list + 8) ≡ true = ground arith in
    rw (real_list [] h, begin-first_of [] h, self) (m, refl, (h, λ p out. (refl, refl)))
list_reverse-IsList {m} {list} (x ∷ l) h small =
    let (us, z, e) = Snoc x l in
    let ends = Ends-of x z l us e h in
    let s = Linked-Suffix (x ∷ l) h in
    let (_, d) = h.distinct in
    let (m', loop, w) =
      reverse_loop-Swapped max_elems (x ∷ l) (omega (arith, small)) s
        (Distinct-left (x ∷ l) (tail_of list ∷ []) d) in
    (
      _,
      list_reverse-some m m' _ list x (real_list (x ∷ l) h) ends.first
          (has-ne (x ∷ l) x (tail_of list) ends.has_first ends.no_tail) loop
          (swap_ends-turned m m' list (x ∷ l) x z h ends w),
      (
        turned-IsList m m' list (x ∷ l) x z h ends w l us refl e
            (Chain-init m (x ∷ l) (tail_of list) s.chain),
        turned-Elsewhere m m' list (x ∷ l) x z h ends w,
      ),
    )
