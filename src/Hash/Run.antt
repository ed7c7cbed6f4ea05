-- ===== src/Hash/Run.antt =====
-- A hash table answers as a plain list of elements does.
use course_archive.Prelude.{
  ℕ, ◌≡◌, refl, sym, ◌∙◌, ap, Bool, not, ◌&&◌, ◌||◌, Option, none, some, List, [], ◌∷◌, ◌==◌,
  Bool-cases, inl, inr, arith, Returns, ◌>>=◌,
}
use course_archive.Thread.{remove}
use course_archive.LinkedList.Chain.{has}
use course_archive.Hash.{Table, equal, find_elem, hash_find, hash_insert, hash_replace, hash_delete}
use course_archive.Hash.Valid.{IsOrder, Unequal, holds, IsValid, equal_sym, Unequal-same}
use course_archive.Hash.Find.{Finds, find_elem-Finds, hash_find-Finds}
use course_archive.Hash.Change.{is_same, is_missing, has-remove, Unequal-remove}
use course_archive.Hash.Calls.{hash_insert-holds, hash_replace-holds, hash_delete-holds}

-- A call, with whether `malloc` would succeed in it.
pub data Call : Type 0 where
  insert : Bool → ℕ → Call
  replace : Bool → ℕ → Call
  delete : Bool → ℕ → Call
  find : ℕ → Call

abbrev pub remove_old : Option ℕ → List ℕ → List ℕ
remove_old none l = l
remove_old (some x) l = remove x l

abbrev pub insert_new : ℕ → Option ℕ → List ℕ → List ℕ
insert_new e none l = e ∷ l
insert_new e (some x) l = l

module _ (hash : ℕ → ℕ) (less : ℕ → ℕ → Bool) where
  abbrev pub answer : Table → Call → Option (Option ℕ × Table)
  answer h (insert storage e) = hash_insert hash less storage h e
  answer h (replace storage e) = hash_replace hash less storage h e
  answer h (delete storage e) = hash_delete hash less storage h e
  answer h (find e) = some (hash_find hash less h e, h)

  abbrev pub run : Table → List Call → Option (List (Option ℕ))
  run h [] = some []
  run h (call ∷ calls) = do (out, h) ← answer h call; rest ← run h calls; some (out ∷ rest)

  -- The same on a list without equal elements.
  abbrev pub element_of : Call → ℕ
  element_of (insert storage e) = e
  element_of (replace storage e) = e
  element_of (delete storage e) = e
  element_of (find e) = e

  abbrev pub change : Call → Option ℕ → List ℕ → List ℕ
  change (insert storage e) o l = insert_new e o l
  change (replace storage e) o l = e ∷ remove_old o l
  change (delete storage e) o l = remove_old o l
  change (find e) o l = l

  abbrev pub list_run : List ℕ → List Call → List (Option ℕ)
  list_run l [] = []
  list_run l (call ∷ calls) =
      let o = find_elem hash less l (element_of call) in o ∷ list_run (change call o l) calls

  -- The table holds what the list has.
  pub record Like (h : Table) (l : List ℕ) : Type 0 where
    pub valid : IsValid hash less h
    pub unequal : Unequal hash less l
    pub same : (y : ℕ) → holds hash less h y ≡ has y l

  module _ (order : IsOrder hash less) where
    Finds-unique :
        (l : List ℕ) (e : ℕ) (o o' : Option ℕ)
        → Unequal hash less l
        → Finds hash less (λ y. has y l) e o
        → Finds hash less (λ y. has y l) e o'
        → o ≡ o'
    Finds-unique l e none none u f g = refl
    Finds-unique l e none (some y) u f (i, eq) = absurd (ground (arith, f y i, eq))
    Finds-unique l e (some x) none u (i, eq) g = absurd (ground (arith, g x i, eq))
    Finds-unique l e (some x) (some y) u (i, eq) (j, eq') =
        let both = order.transitive x e y eq (equal_sym hash less e y ∙ eq') in
        let it : x ≡ y = ground (arith, Unequal-same hash less l x y u i j both) in
        ap (λ (z : ℕ). some z) it

    Finds-ext :
        (P Q : ℕ → Bool) (e : ℕ) (o : Option ℕ)
        → ((y : ℕ) → P y ≡ Q y)
        → Finds hash less P e o
        → Finds hash less Q e o
    Finds-ext P Q e none same f = λ y i. f y (same y ∙ i)
    Finds-ext P Q e (some x) same (i, eq) = (sym (same x) ∙ i, eq)

    find-same :
        (h : Table) (l : List ℕ) (e : ℕ)
        → Like h l
        → hash_find hash less h e ≡ find_elem hash less l e
    find-same h l e k =
        Finds-unique l e (hash_find hash less h e) (find_elem hash less l e) k.unequal
          (Finds-ext (holds hash less h) (λ y. has y l) e (hash_find hash less h e) k.same
            (hash_find-Finds hash less order h e))
          (find_elem-Finds hash less l e)

    -- What the calls do to the list.
    has-remove_old :
        (l : List ℕ) (o : Option ℕ) (y : ℕ)
        → Unequal hash less l
        → has y (remove_old o l) ≡ (has y l && not (is_same y o))
    has-remove_old l none y u = ground arith
    has-remove_old l (some x) y u = has-remove hash less order l x y u

    Unequal-remove_old :
        (l : List ℕ) (o : Option ℕ) → Unequal hash less l → Unequal hash less (remove_old o l)
    Unequal-remove_old l none u = u
    Unequal-remove_old l (some x) u = Unequal-remove hash less order l x u

    has-insert_new :
        (l : List ℕ) (e : ℕ) (o : Option ℕ) (y : ℕ)
        → has y (insert_new e o l) ≡ ((is_missing o && (y == e)) || has y l)
    has-insert_new l e none y = refl
    has-insert_new l e (some x) y = refl

    Unequal-insert_new :
        (l : List ℕ) (e : ℕ) (o : Option ℕ)
        → Unequal hash less l
        → Finds hash less (λ y. has y l) e o
        → Unequal hash less (insert_new e o l)
    Unequal-insert_new l e none u f = (λ y i. equal_sym hash less e y ∙ f y i, u)
    Unequal-insert_new l e (some x) u f = u

    -- The element that replaces is equal to none of the others.
    Unequal-replace :
        (l : List ℕ) (e : ℕ) (o : Option ℕ)
        → Unequal hash less l
        → Finds hash less (λ y. has y l) e o
        → Unequal hash less (e ∷ remove_old o l)
    Unequal-replace l e none u f = (λ y i. equal_sym hash less e y ∙ f y i, u)
    Unequal-replace l e (some x) u (i, eq) = (
      λ y among. elim (Bool-cases (equal hash less e y)) [
        | inr ne ↦ ne
        | inl eq' ↦
            let both =
              Unequal-same hash less l x y u i
                (ground (arith, among, has-remove hash less order l x y u))
                (order.transitive x e y eq eq') in
            absurd (ground (arith, among, has-remove hash less order l x y u, both))
      ],
      Unequal-remove hash less order l x u,
    )

    -- One call.
    answer-Like :
        (h : Table) (l : List ℕ) (call : Call)
        → Like h l
        → let o = find_elem hash less l (element_of call) in
          Returns (λ (out, h'). (out ≡ o) × Like h' (change call o l)) (answer h call)
    answer-Like h l (insert storage e) k =
        let f = find_elem-Finds hash less l e in
        let o = find_elem hash less l e in
        let ((out, h'), run, (v, old, s)) = hash_insert-holds hash less order h k.valid e storage in
        let same = old ∙ find-same h l e k in
        (
          (out, h'),
          run,
          (
            same,
            record {
              valid = v;
              unequal = Unequal-insert_new l e o k.unequal f;
              same = λ y.
                  s y
                  ∙ ap (λ c. (is_missing c && (y == e)) || holds hash less h y) same
                  ∙ ap (λ b. (is_missing o && (y == e)) || b) (k.same y)
                  ∙ sym (has-insert_new l e o y);
            },
          ),
        )
    answer-Like h l (replace storage e) k =
        let f = find_elem-Finds hash less l e in
        let o = find_elem hash less l e in
        let ((out, h'), run, (v, old, s)) =
          hash_replace-holds hash less order h k.valid e storage in
        let same = old ∙ find-same h l e k in
        (
          (out, h'),
          run,
          (
            same,
            record {
              valid = v;
              unequal = Unequal-replace l e o k.unequal f;
              same = λ y.
                  s y
                  ∙ ap (λ c. (y == e) || (holds hash less h y && not (is_same y c))) same
                  ∙ ap (λ b. (y == e) || (b && not (is_same y o))) (k.same y)
                  ∙ ap (λ b. (y == e) || b) (sym (has-remove_old l o y k.unequal));
            },
          ),
        )
    answer-Like h l (delete storage e) k =
        let o = find_elem hash less l e in
        let ((out, h'), run, (v, old, s)) = hash_delete-holds hash less order h k.valid e storage in
        let same = old ∙ find-same h l e k in
        (
          (out, h'),
          run,
          (
            same,
            record {
              valid = v;
              unequal = Unequal-remove_old l o k.unequal;
              same = λ y.
                  s y
                  ∙ ap (λ c. holds hash less h y && not (is_same y c)) same
                  ∙ ap (λ b. b && not (is_same y o)) (k.same y)
                  ∙ sym (has-remove_old l o y k.unequal);
            },
          ),
        )
    answer-Like h l (find e) k = ((hash_find hash less h e, h), refl, (find-same h l e k, k))

    run-some :
        (h h' : Table) (call : Call) (calls : List Call) (o : Option ℕ) (rest : List (Option ℕ))
        → answer h call ≡ some (o, h')
        → run h' calls ≡ some rest
        → run h (call ∷ calls) ≡ some (o ∷ rest)
    run-some h h' call calls o rest e e2 = rw (e, e2) refl

    -- Any calls of `hash_insert`, `hash_replace`, `hash_delete` and `hash_find` on a table run without
    -- a panic and return what they return on a plain list of the same elements, in any order there,
    -- whether or not there is memory to rehash.
    pub run-list_run :
        (h : Table) (l : List ℕ) (calls : List Call)
        → Like h l
        → run h calls ≡ some (list_run l calls)
    run-list_run h l [] k = refl
    run-list_run h l (call ∷ calls) k =
        let o = find_elem hash less l (element_of call) in
        let ((out, h'), e, (same, k')) = answer-Like h l call k in
        run-some h h' call calls out _ e (run-list_run h' (change call o l) calls k')
        ∙ ap (λ (c : Option ℕ). some (c ∷ list_run (change call o l) calls)) same
