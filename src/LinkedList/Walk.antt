-- ===== src/LinkedList/Walk.antt =====
-- Loops over a list: `list_size`, and the place that `list_insert_ordered` looks for.
use mathlib.Core.Path.{subst}
use course_archive.Prelude.{
  ℕ, zero, suc, ◌+◌, ◌%◌, ◌^◌, ◌≤◌, ◌<◌, ◌≡◌, refl, sym, ◌∙◌, ap, Bool, true, false, some, List, [],
  ◌∷◌, ◌++◌, ◌==◌, length, Bool-cases, inl, inr, arith, Returns,
}
use course_archive.Timer.{list_insert_ordered}
use course_archive.LinkedList.{
  Links, head_of, tail_of, max_elems, list_next, size_loop, list_size, list_insert,
}
use course_archive.LinkedList.Ordered.{place_loop, insert_ordered}
use course_archive.LinkedList.Chain.{has, Distinct, Chain, Distinct-apart}
use course_archive.LinkedList.Shape.{nodes, IsList, first_of, Elsewhere, list_next-some}
use course_archive.LinkedList.Sequence.{list_insert-IsList}

module _ {m : Links} {list : ℕ} where
  pub real_list : (xs : List ℕ) → IsList m list xs → (list == 0) ≡ false
  real_list xs h = ground (arith, h.real)

  pub begin-first_of :
      (xs : List ℕ) → IsList m list xs → m.next (head_of list) ≡ first_of xs (tail_of list)
  begin-first_of [] h = let (n, _, _) = h.chain in n
  begin-first_of (x ∷ xs) h = let (n, _, _) = h.chain in n

-- The end of a chain, from an element on.
pub record Suffix (m : Links) (t : ℕ) (ys : List ℕ) : Type 0 where
  pub chain : Chain m (ys ++ t ∷ [])
  pub apart : has t ys ≡ false
  pub real : has 0 (ys ++ t ∷ []) ≡ false

module _ {m : Links} {t : ℕ} where
  pub Suffix-rest : {y : ℕ} {ys : List ℕ} → Suffix m t (y ∷ ys) → Suffix m t ys
  Suffix-rest {y = y} {ys = []} s = record {
    chain = tt;
    apart = refl;
    real = ground (arith, s.real);
  }
  Suffix-rest {y = y} {ys = z ∷ ys} s =
      let (_, _, c) = s.chain in
      record { chain = c; apart = ground (arith, s.apart); real = ground (arith, s.real) }

  pub Suffix-next :
      {y : ℕ} {ys : List ℕ} → Suffix m t (y ∷ ys) → list_next m y ≡ some (first_of ys t)
  Suffix-next {y = y} {ys = []} s =
      let (n, _, _) = s.chain in
      list_next-some m y t (ground (arith, s.real)) (ground (arith, s.real)) n
  Suffix-next {y = y} {ys = z ∷ ys} s =
      let (n, _, _) = s.chain in
      list_next-some m y z (ground (arith, s.real)) (ground (arith, s.real)) n

pub Linked-Suffix :
    {m : Links} {list : ℕ} (xs : List ℕ) → IsList m list xs → Suffix m (tail_of list) xs
Linked-Suffix {m} {list} [] h = record { chain = tt; apart = refl; real = ground (arith, h.real) }
Linked-Suffix {m} {list} (x ∷ xs) h =
    let (_, _, c) = h.chain in
    let (_, d) = h.distinct in
    record { chain = c; apart = apart (x ∷ xs) d; real = ground (arith, h.real) }
  where
    apart : (ys : List ℕ) → Distinct (ys ++ tail_of list ∷ []) → has (tail_of list) ys ≡ false
    apart ys d = elim (Bool-cases (has (tail_of list) ys)) [
      | inl i ↦ absurd (ground (arith, Distinct-apart ys (tail_of list ∷ []) (tail_of list) d i))
      | inr out ↦ out
    ]

size_loop-length :
    (fuel : ℕ) {m : Links} {t : ℕ} (ys : List ℕ) (cnt : ℕ)
    → length ys ≤ fuel
    → cnt + length ys < 2 ^ 32
    → Suffix m t ys
    → size_loop fuel m t (first_of ys t) cnt ≡ some (cnt + length ys)
unfolding size_loop
size_loop-length zero {m} {t} [] cnt le fits s =
    let done : (t == t) ≡ true = ground arith in rw done (ap (λ k. some k) (omega arith))
size_loop-length zero {m} {t} (y ∷ ys) cnt le fits s = absurd (omega arith)
size_loop-length (suc fuel) {m} {t} [] cnt le fits s =
    let done : (t == t) ≡ true = ground arith in rw done (ap (λ k. some k) (omega arith))
size_loop-length (suc fuel) {m} {t} (y ∷ ys) cnt le fits s =
    let more : (y == t) ≡ false = ground (arith, s.apart) in
    let small : (cnt + 1) % 2 ^ 32 ≡ cnt + 1 = omega (arith, fits) in
    let place : cnt + 1 + length ys ≡ cnt + suc (length ys) = omega arith in
    rw (more, Suffix-next s, small)
      (size_loop-length fuel ys (cnt + 1) (omega arith) (omega arith) (Suffix-rest s)
        ∙ ap (λ k. some k) place)

list_size-run :
    (m : Links) (list : ℕ) (xs : List ℕ)
    → (list == 0) ≡ false
    → m.next (head_of list) ≡ first_of xs (tail_of list)
    → size_loop max_elems m (tail_of list) (first_of xs (tail_of list)) 0 ≡ some (length xs)
    → list_size m list ≡ some (length xs)
list_size-run m list xs real first run = rw (real, first, run) refl

-- `list_size` returns the number of elements, if there are fewer of them than 2 ^ 32.
pub list_size-length :
    {m : Links} {list : ℕ} (xs : List ℕ)
    → IsList m list xs
    → length xs < 2 ^ 32
    → list_size m list ≡ some (length xs)
list_size-length {m} {list} xs h small =
    list_size-run m list xs (real_list xs h) (begin-first_of xs h) (
      size_loop-length max_elems xs 0 (omega (arith, small)) (omega (arith, small))
        (Linked-Suffix xs h)
      ∙ ap (λ (k : ℕ). some k) (omega arith))

module _ (less : ℕ → ℕ → Bool) (e : ℕ) where
  -- Where the loop stops, `list_insert_ordered` puts the element.
  record Place (t : ℕ) (ys : List ℕ) (r : ℕ) : Type 0 where
    before : List ℕ
    behind : List ℕ
    parts : ys ≡ before ++ behind
    stops : r ≡ first_of behind t
    ordered : list_insert_ordered less e ys ≡ before ++ e ∷ behind

  place_loop-Place :
      (fuel : ℕ) {m : Links} {t : ℕ} (ys : List ℕ)
      → length ys ≤ fuel
      → Suffix m t ys
      → Returns (Place t ys) (place_loop less fuel m t e (first_of ys t))
  unfolding place_loop list_insert_ordered
  place_loop-Place zero {m} {t} [] le s =
      let done : (t == t) ≡ true = ground arith in
      rw done
        (t, refl, record { before = []; behind = []; parts = refl; stops = refl; ordered = refl })
  place_loop-Place zero {m} {t} (y ∷ ys) le s = absurd (omega arith)
  place_loop-Place (suc fuel) {m} {t} [] le s =
      let done : (t == t) ≡ true = ground arith in
      rw done
        (t, refl, record { before = []; behind = []; parts = refl; stops = refl; ordered = refl })
  place_loop-Place (suc fuel) {m} {t} (y ∷ ys) le s =
      let more : (y == t) ≡ false = ground (arith, s.apart) in
      elim (Bool-cases (less e y)) [
        | inl here ↦
            rw (more, here)
              (
                y,
                refl,
                record {
                  before = [];
                  behind = y ∷ ys;
                  parts = refl;
                  stops = refl;
                  ordered = rw here refl;
                },
              )
        | inr later ↦
            let (r, run, p) = place_loop-Place fuel ys (omega arith) (Suffix-rest s) in
            rw (more, later, Suffix-next s, run)
              (
                r,
                refl,
                record {
                  before = y ∷ p.before;
                  behind = p.behind;
                  parts = ap (λ l. y ∷ l) p.parts;
                  stops = p.stops;
                  ordered = rw later (ap (λ l. y ∷ l) p.ordered);
                },
              )
      ]

  insert_ordered-run :
      (m m' : Links) (list r first : ℕ)
      → (e == 0) ≡ false
      → (list == 0) ≡ false
      → m.next (head_of list) ≡ first
      → place_loop less max_elems m (tail_of list) e first ≡ some r
      → list_insert m r e ≡ some m'
      → insert_ordered less m list e ≡ some m'
  unfolding insert_ordered
  insert_ordered-run m m' list r e0 real_e real begins place run =
      rw (real_e, real, begins, place, run) refl

  -- `list_insert_ordered` in memory inserts as it does in a sequence, and changes no other list.
  pub insert_ordered-IsList :
      {m : Links} {list : ℕ} (xs : List ℕ)
      → IsList m list xs
      → has e (nodes list xs) ≡ false
      → (e == 0) ≡ false
      → length xs < 2 ^ 32
      → Returns
          (λ m'.
            IsList m' list (list_insert_ordered less e xs) × Elsewhere m m' (e ∷ nodes list xs))
          (insert_ordered less m list e)
  insert_ordered-IsList {m} {list} xs h fresh real small =
      let (r, place, p) =
        place_loop-Place max_elems xs (omega (arith, small)) (Linked-Suffix xs h) in
      let h' : IsList m list (p.before ++ p.behind) = subst (λ l. IsList m list l) p.parts h in
      let fresh' : has e (nodes list (p.before ++ p.behind)) ≡ false =
        ap (λ l. has e (nodes list l)) (sym p.parts) ∙ fresh in
      let (m', run, (linked, elsewhere)) = list_insert-IsList p.before p.behind e h' fresh' real in
      (
        m',
        insert_ordered-run m m' list r _ real (real_list xs h) (begin-first_of xs h) place
            (ap (λ q. list_insert m q e) p.stops ∙ run),
        (
          subst (λ l. IsList m' list l) (sym p.ordered) linked,
          subst (λ l. Elsewhere m m' (e ∷ nodes list l)) (sym p.parts) elsewhere,
        ),
      )
