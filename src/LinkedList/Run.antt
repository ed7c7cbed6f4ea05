-- ===== src/LinkedList/Run.antt =====
-- A list as a sequence: what its functions return, for any order of the calls.
use mathlib.Core.Path.{subst}
use mathlib.Core.List.{reverse, append-nil}
use course_archive.Prelude.{
  ℕ, ◌+◌, ◌^◌, ◌<◌, ◌≡◌, refl, sym, ◌∙◌, ap, true, false, Option, none, some, List, [], ◌∷◌, ◌++◌,
  ◌==◌, length, arith, ◌>>=◌,
}
use course_archive.LinkedList.{
  Links, head_of, tail_of, list_remove, push_front, push_back, pop_front, pop_back, list_size,
  list_reverse,
}
use course_archive.LinkedList.Chain.{has, has-append}
use course_archive.LinkedList.Shape.{nodes, Linked, IsList, prev-at, nodes-at}
use course_archive.LinkedList.Sequence.{list_insert-IsList, list_remove-IsList}
use course_archive.LinkedList.Walk.{real_list, begin-first_of, list_size-length}
use course_archive.LinkedList.Turn.{list_reverse-IsList}

pub data Call : Type 0 where
  push_first : ℕ → Call
  push_last : ℕ → Call
  pop_first : Call
  pop_last : Call
  turn : Call
  count : Call

-- The answer of a call in memory.
abbrev pub answer : Links → ℕ → Call → Option (List ℕ × Links)
answer m list (push_first e) = do m ← push_front m list e; some ([], m)
answer m list (push_last e) = do m ← push_back m list e; some ([], m)
answer m list pop_first = do (e, m) ← pop_front m list; some (e ∷ [], m)
answer m list pop_last = do (e, m) ← pop_back m list; some (e ∷ [], m)
answer m list turn = do m ← list_reverse m list; some ([], m)
answer m list count = do n ← list_size m list; some (n ∷ [], m)

abbrev pub run : Links → ℕ → List Call → Option (List ℕ)
run m list [] = some []
run m list (call ∷ calls) = do
  (out, m) ← answer m list call
  rest ← run m list calls
  some (out ++ rest)

-- The sequence without its last element, and that element.
abbrev pub split_last : ℕ → List ℕ → List ℕ × ℕ
split_last x [] = ([], x)
split_last x (y ∷ l) = let (us, z) = split_last y l in (x ∷ us, z)

-- The same calls on a sequence.
abbrev pub answer_of : List ℕ → Call → Option (List ℕ × List ℕ)
answer_of xs (push_first e) = some ([], e ∷ xs)
answer_of xs (push_last e) = some ([], xs ++ e ∷ [])
answer_of [] pop_first = none
answer_of (x ∷ l) pop_first = some (x ∷ [], l)
answer_of [] pop_last = none
answer_of (x ∷ l) pop_last = let (us, z) = split_last x l in some (z ∷ [], us)
answer_of xs turn = some ([], reverse xs)
answer_of xs count = some (length xs ∷ [], xs)

abbrev pub run_of : List ℕ → List Call → Option (List ℕ)
run_of xs [] = some []
run_of xs (call ∷ calls) = do
  (out, xs) ← answer_of xs call
  rest ← run_of xs calls
  some (out ++ rest)

-- Only new elements are pushed, and a list of 2 ^ 32 elements is neither counted nor reversed.
abbrev pub Admits : ℕ → List ℕ → Call → Type 0
Admits list xs (push_first e) = (has e (nodes list xs) ≡ false) × ((e == 0) ≡ false)
Admits list xs (push_last e) = (has e (nodes list xs) ≡ false) × ((e == 0) ≡ false)
Admits list xs pop_first = Unit
Admits list xs pop_last = Unit
Admits list xs turn = length xs < 2 ^ 32
Admits list xs count = length xs < 2 ^ 32

abbrev pub rest_of : Option (List ℕ × List ℕ) → Option (List ℕ)
rest_of none = none
rest_of (some (_, xs)) = some xs

abbrev pub AdmitsAll : ℕ → Option (List ℕ) → List Call → Type 0
AdmitsAll list none calls = Unit
AdmitsAll list (some xs) [] = Unit
AdmitsAll list (some xs) (call ∷ calls) =
    Admits list xs call × AdmitsAll list (rest_of (answer_of xs call)) calls

-- A call in memory does what it does on the sequence, or fails like it.
pub data Agrees (list : ℕ) : Option (List ℕ × Links) → Option (List ℕ × List ℕ) → Type 0 where
  fails : Agrees list none none
  gives :
      {out xs : List ℕ} {m : Links}
      → IsList m list xs
      → Agrees list (some (out, m)) (some (out, xs))

Agrees-at :
    {list : ℕ} {o o' : Option (List ℕ × Links)} {s : Option (List ℕ × List ℕ)}
    → o ≡ o'
    → Agrees list o' s
    → Agrees list o s
Agrees-at {list} {s = s} e a = subst (λ o. Agrees list o s) (sym e) a

module _ {m : Links} {list : ℕ} where
  front-Agrees :
      (xs : List ℕ) (e : ℕ)
      → IsList m list xs
      → Admits list xs (push_first e)
      → Agrees list (answer m list (push_first e)) (answer_of xs (push_first e))
  front-Agrees xs e h (fresh, real) =
      let (m', run, (h', _)) = list_insert-IsList [] xs e h fresh real in
      Agrees-at (rw (real_list xs h, begin-first_of xs h, run) refl) (gives h')

  back-Agrees :
      (xs : List ℕ) (e : ℕ)
      → IsList m list xs
      → Admits list xs (push_last e)
      → Agrees list (answer m list (push_last e)) (answer_of xs (push_last e))
  back-Agrees xs e h (fresh, real) =
      let (m', run, (h', _)) =
        list_insert-IsList xs [] e (subst (λ l. IsList m list l) (sym (append-nil xs)) h)
          (ap (λ l. has e (nodes list l)) (append-nil xs) ∙ fresh) real in
      Agrees-at (rw (real_list xs h, run) refl) (gives h')

  pop_first-Agrees :
      (xs : List ℕ)
      → IsList m list xs
      → Agrees list (answer m list pop_first) (answer_of xs pop_first)
  pop_first-Agrees [] h =
      let self : (list + 8 == list + 8) ≡ true = ground arith in
      Agrees-at (rw (real_list [] h, begin-first_of [] h, self) refl) fails
  pop_first-Agrees (x ∷ l) h =
      let ((n, m'), run, (_, h', _)) = list_remove-IsList [] l x h in
      let (_, (out, _)) = h.distinct in
      let more : (x == list + 8) ≡ false =
        ground (arith, out, has-append x l (tail_of list ∷ [])) in
      let more' : (x == list + 8) ≡ false = ground (arith, more) in
      Agrees-at (rw (real_list (x ∷ l) h, begin-first_of (x ∷ l) h, more', run) refl) (gives h')

  turn-Agrees :
      (xs : List ℕ)
      → IsList m list xs
      → length xs < 2 ^ 32
      → Agrees list (answer m list turn) (answer_of xs turn)
  turn-Agrees xs h small =
      let (m', run, (h', _)) = list_reverse-IsList xs h small in Agrees-at (rw run refl) (gives h')

  count-Agrees :
      (xs : List ℕ)
      → IsList m list xs
      → length xs < 2 ^ 32
      → Agrees list (answer m list count) (answer_of xs count)
  count-Agrees xs h small =
      Agrees-at (ap (λ o. o >>= (λ n. some (n ∷ [], m))) (list_size-length xs h small)) (gives h)

pop_back-some :
    (m m' : Links) (list x z n : ℕ)
    → (list == 0) ≡ false
    → m.next (head_of list) ≡ x
    → (x == tail_of list) ≡ false
    → m.prev (tail_of list) ≡ z
    → list_remove m z ≡ some (n, m')
    → pop_back m list ≡ some (z, m')
pop_back-some m m' list x z n real begins more last removed =
    rw (real, begins, more, last, removed) refl

split_last-append : (x : ℕ) (l : List ℕ) → x ∷ l ≡ (split_last x l).0 ++ (split_last x l).1 ∷ []
split_last-append x [] = refl
split_last-append x (y ∷ l) = ap (λ k. x ∷ k) (split_last-append y l)

module _ {m : Links} {list : ℕ} where
  last-prev : (us : List ℕ) (z : ℕ) → IsList m list (us ++ z ∷ []) → m.prev (tail_of list) ≡ z
  last-prev us z h =
      let whole = nodes-at list (us ++ z ∷ []) [] (head_of list ∷ us) z refl in
      prev-at m (head_of list ∷ us) z (tail_of list) []
        (subst (λ k. Linked m list k) (ap (nodes list) (sym (append-nil (us ++ z ∷ []))) ∙ whole)
          h).chain

  pop_last-Agrees :
      (xs : List ℕ)
      → IsList m list xs
      → Agrees list (answer m list pop_last) (answer_of xs pop_last)
  pop_last-Agrees [] h =
      let self : (list + 8 == list + 8) ≡ true = ground arith in
      Agrees-at (rw (real_list [] h, begin-first_of [] h, self) refl) fails
  pop_last-Agrees (x ∷ l) h =
      let us = (split_last x l).0 in
      let z = (split_last x l).1 in
      let h2 : IsList m list (us ++ z ∷ []) =
        subst (λ k. IsList m list k) (split_last-append x l) h in
      let ((n, m'), run, (_, h', _)) = list_remove-IsList us [] z h2 in
      let (_, (out, _)) = h.distinct in
      let more : (x == tail_of list) ≡ false =
        ground (arith, out, has-append x l (tail_of list ∷ [])) in
      Agrees-at
        (ap (λ o. o >>= (λ (e, m). some (e ∷ [], m)))
          (pop_back-some m m' list x z n (real_list (x ∷ l) h) (begin-first_of (x ∷ l) h) more
            (last-prev us z h2) run))
        (gives (subst (λ k. IsList m' list k) (append-nil us) h'))

  answer-Agrees :
      (xs : List ℕ) (call : Call)
      → IsList m list xs
      → Admits list xs call
      → Agrees list (answer m list call) (answer_of xs call)
  answer-Agrees xs (push_first e) h a = front-Agrees xs e h a
  answer-Agrees xs (push_last e) h a = back-Agrees xs e h a
  answer-Agrees xs pop_first h a = pop_first-Agrees xs h
  answer-Agrees xs pop_last h a = pop_last-Agrees xs h
  answer-Agrees xs turn h a = turn-Agrees xs h a
  answer-Agrees xs count h a = count-Agrees xs h a

-- Any calls of `list_push_front`, `list_push_back`, `list_pop_front`, `list_pop_back`, `list_reverse`
-- and `list_size` on a list in memory return what they return on the sequence of its elements, and
-- stop at an assertion exactly where there is no element to take, if what is pushed is a new element
-- and the list that is counted or reversed has fewer than 2 ^ 32 of them.
pub run-run_of :
    {m : Links} {list : ℕ} (xs : List ℕ) (calls : List Call)
    → IsList m list xs
    → AdmitsAll list (some xs) calls
    → run m list calls ≡ run_of xs calls
run-run_of xs [] h a = refl
run-run_of {m} {list} xs (call ∷ calls) h (now, later) =
    go (λ m xs. run-run_of xs calls) (answer m list call) (answer_of xs call)
      (answer-Agrees xs call h now) later
  where
    go :
        ((m : Links) (xs : List ℕ)
          → IsList m list xs
          → AdmitsAll list (some xs) calls
          → run m list calls ≡ run_of xs calls)
        → (o : Option (List ℕ × Links)) (s : Option (List ℕ × List ℕ)) → Agrees list o s
        → AdmitsAll list (rest_of s) calls
        → (do (out, m) ← o; rest ← run m list calls; some (out ++ rest))
          ≡ (do (out, xs) ← s; rest ← run_of xs calls; some (out ++ rest))
    go next o s fails l = refl
    go next o s (gives {out} {xs} {m} h') l =
        ap (λ r. r >>= (λ rest. some (out ++ rest))) (next m xs h' l)
