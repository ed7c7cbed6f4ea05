-- ===== src/LinkedList/Tests.antt =====
-- Lists at the addresses 100 and 200, with elements at 10, 20 and 30.
use course_archive.Prelude.{
  ◌≡◌, refl, ltb, some, [], ◌∷◌, ◌==◌, Returns, arith, ◌>>=◌, if◌then◌else◌,
}
use course_archive.Timer.{list_insert_ordered}
use course_archive.LinkedList
use course_archive.LinkedList.{Links, tail_of, list_init, list_insert, list_remove, list_reverse}
use course_archive.LinkedList.Ordered.{
  insert_ordered, list_sort, sort_loop, pass_loop, find_end_of_run, run_loop, inplace_merge,
  is_sorted, sorted_loop, merge_loop,
}
use course_archive.LinkedList.Shape.{nodes, IsList, Elsewhere}
use course_archive.LinkedList.Sequence.{list_insert-IsList, list_remove-IsList}
use course_archive.LinkedList.Walk.{insert_ordered-IsList}
use course_archive.LinkedList.Turn.{list_reverse-IsList}
use course_archive.LinkedList.Run.{
  push_first, pop_first, pop_last, turn, count, run, run_of, run-run_of,
}

-- 100, 10, 20 and the tail 108.
abbrev two : Links
two = record {
  prev = λ p. if p == 10 then 100 else (if p == 20 then 10 else (if p == 108 then 20 else 0));
  next = λ p. if p == 100 then 10 else (if p == 10 then 20 else (if p == 20 then 108 else 0));
}

two-IsList : IsList two 100 (10 ∷ 20 ∷ [])
two-IsList = record {
  chain = (refl, refl, (refl, refl, (refl, refl, tt)));
  front = refl;
  back = refl;
  distinct = (refl, (refl, (refl, (refl, tt))));
  real = refl;
}

list_insert-IsList_example :
    Returns
      (λ m'. IsList m' 100 (10 ∷ 30 ∷ 20 ∷ []) × Elsewhere two m' (30 ∷ nodes 100 (10 ∷ 20 ∷ [])))
      (list_insert two 20 30)
list_insert-IsList_example = list_insert-IsList (10 ∷ []) (20 ∷ []) 30 two-IsList refl refl

list_remove-IsList_example :
    Returns
      (λ (n, m'). (n ≡ 20) × IsList m' 100 (20 ∷ []) × Elsewhere two m' (nodes 100 (10 ∷ 20 ∷ [])))
      (list_remove two 10)
list_remove-IsList_example = list_remove-IsList [] (20 ∷ []) 10 two-IsList

insert_ordered-IsList_example :
    Returns
      (λ m'.
        IsList m' 100 (list_insert_ordered ltb 15 (10 ∷ 20 ∷ []))
        × Elsewhere two m' (15 ∷ nodes 100 (10 ∷ 20 ∷ [])))
      (insert_ordered ltb two 100 15)
insert_ordered-IsList_example =
    insert_ordered-IsList ltb 15 (10 ∷ 20 ∷ []) two-IsList refl refl (omega arith)

list_reverse-IsList_example :
    Returns
      (λ m'. IsList m' 100 (20 ∷ 10 ∷ []) × Elsewhere two m' (nodes 100 (10 ∷ 20 ∷ [])))
      (list_reverse two 100)
list_reverse-IsList_example = list_reverse-IsList (10 ∷ 20 ∷ []) two-IsList (omega arith)

run-run_of_example :
    run two 100 (push_first 30 ∷ turn ∷ pop_first ∷ count ∷ pop_last ∷ pop_last ∷ pop_last ∷ [])
    ≡ run_of
        (10 ∷ 20 ∷ [])
        (push_first 30 ∷ turn ∷ pop_first ∷ count ∷ pop_last ∷ pop_last ∷ pop_last ∷ [])
run-run_of_example =
    run-run_of (10 ∷ 20 ∷ [])
      (push_first 30 ∷ turn ∷ pop_first ∷ count ∷ pop_last ∷ pop_last ∷ pop_last ∷ []) two-IsList
      ((refl, refl), (omega arith, (tt, (omega arith, (tt, (tt, (tt, tt)))))))

sort-two :
    (do
      m ← list_sort (λ a b. ltb b a) two 100
      some (m.next 100 ∷ m.next 20 ∷ m.next 10 ∷ m.prev 108 ∷ []))
    ≡ some (20 ∷ 10 ∷ 108 ∷ 10 ∷ [])
unfolding list_sort sort_loop pass_loop find_end_of_run run_loop inplace_merge is_sorted sorted_loop
    merge_loop LinkedList.list_splice LinkedList.list_next LinkedList.list_prev
sort-two = refl
