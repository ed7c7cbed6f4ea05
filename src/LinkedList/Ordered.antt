-- ===== src/LinkedList/Ordered.antt =====
-- The functions of list.c that compare elements. `less` is what the caller's comparison function
-- answers for two elements.
use course_archive.Prelude.{
  ℕ, zero, suc, ◌+◌, Bool, true, false, not, ◌&&◌, ◌||◌, Option, none, some, ◌==◌, ltb,
  if◌then◌else◌, ◌>>=◌, ◌>>◌, assert,
}
use course_archive.LinkedList.{
  Links, max_elems, list_begin, list_next, list_end, list_prev, list_insert, list_splice,
  list_remove, push_back, list_empty,
}

module _ (less : ℕ → ℕ → Bool) where
  -- `for (...) if (less (elem, e, aux)) break;`
  unfoldable pub place_loop : ℕ → Links → ℕ → ℕ → ℕ → Option ℕ
  place_loop zero m end elem e = if e == end then some e else none
  place_loop (suc fuel) m end elem e =
      let step = (do e ← list_next m e; place_loop fuel m end elem e) in
      if e == end then some e else (if less elem e then some e else step)

  unfoldable pub insert_ordered : Links → ℕ → ℕ → Option Links
  insert_ordered m list elem = do
    assert (not (elem == 0))
    first ← list_begin m list
    end ← list_end list
    e ← place_loop max_elems m end elem first
    list_insert m e elem

  unfoldable pub max_loop : ℕ → Links → ℕ → ℕ → ℕ → Option ℕ
  max_loop zero m end max e = if e == end then some max else none
  max_loop (suc fuel) m end max e =
      let step = (do e' ← list_next m e; max_loop fuel m end (if less max e then e else max) e') in
      if e == end then some max else step

  unfoldable pub list_max : Links → ℕ → Option ℕ
  list_max m list = do
    max ← list_begin m list
    end ← list_end list
    let search = (do e ← list_next m max; max_loop max_elems m end max e)
    if max == end then some max else search

  unfoldable pub min_loop : ℕ → Links → ℕ → ℕ → ℕ → Option ℕ
  min_loop zero m end min e = if e == end then some min else none
  min_loop (suc fuel) m end min e =
      let step = (do e' ← list_next m e; min_loop fuel m end (if less e min then e else min) e') in
      if e == end then some min else step

  unfoldable pub list_min : Links → ℕ → Option ℕ
  list_min m list = do
    min ← list_begin m list
    end ← list_end list
    let search = (do e ← list_next m min; min_loop max_elems m end min e)
    if min == end then some min else search

  -- `less (a, list_prev (a), aux)`
  abbrev pub descends : Links → ℕ → Option Bool
  descends m a = do p ← list_prev m a; some (less a p)

  unfoldable pub sorted_loop : ℕ → Links → ℕ → ℕ → Option Bool
  sorted_loop zero m b a = none
  sorted_loop (suc fuel) m b a = do
    a ← list_next m a
    let more = (do
      down ← descends m a
      let rest = sorted_loop fuel m b a
      if down then some false else rest)
    if a == b then some true else more

  unfoldable pub is_sorted : Links → ℕ → ℕ → Option Bool
  is_sorted m a b = if a == b then some true else sorted_loop max_elems m b a

  unfoldable pub run_loop : ℕ → Links → ℕ → ℕ → Option ℕ
  run_loop zero m b a = none
  run_loop (suc fuel) m b a = do
    a ← list_next m a
    let more = (do
      down ← descends m a
      let rest = run_loop fuel m b a
      if down then some a else rest)
    if a == b then some a else more

  unfoldable pub find_end_of_run : Links → ℕ → ℕ → Option ℕ
  find_end_of_run m a b = do
    assert (not (a == 0))
    assert (not (b == 0))
    assert (not (a == b))
    run_loop max_elems m b a

  unfoldable pub merge_loop : ℕ → Links → ℕ → ℕ → ℕ → Option Links
  merge_loop zero m a0 a1b0 b1 = if (a0 == a1b0) || (a1b0 == b1) then some m else none
  merge_loop (suc fuel) m a0 a1b0 b1 =
      let pass = (do a0 ← list_next m a0; merge_loop fuel m a0 a1b0 b1) in
      let move = (do
        a1b0 ← list_next m a1b0
        last ← list_prev m a1b0
        m ← list_splice m a0 last a1b0
        merge_loop fuel m a0 a1b0 b1) in
      if (a0 == a1b0) || (a1b0 == b1) then some m else (if not (less a1b0 a0) then pass else move)

  unfoldable pub inplace_merge : Links → ℕ → ℕ → ℕ → Option Links
  inplace_merge m a0 a1b0 b1 = do
    assert (not (a0 == 0))
    assert (not (a1b0 == 0))
    assert (not (b1 == 0))
    first ← is_sorted m a0 a1b0
    assert first
    second ← is_sorted m a1b0 b1
    assert second
    merge_loop max_elems m a0 a1b0 b1

  -- The `for` loop of `list_sort`: how many runs it puts out.
  unfoldable pub pass_loop : ℕ → Links → ℕ → ℕ → ℕ → Option (ℕ × Links)
  pass_loop zero m end a0 count = if a0 == end then some (count, m) else none
  pass_loop (suc fuel) m end a0 count =
      let round = (do
        a1b0 ← find_end_of_run m a0 end
        let merge = (do
          b1 ← find_end_of_run m a1b0 end
          m ← inplace_merge m a0 a1b0 b1
          pass_loop fuel m end b1 (count + 1))
        if a1b0 == end then some (count + 1, m) else merge) in
      if a0 == end then some (count, m) else round

  -- The `do` loop.
  unfoldable pub sort_loop : ℕ → Links → ℕ → Option Links
  sort_loop zero m list = none
  sort_loop (suc fuel) m list = do
    first ← list_begin m list
    end ← list_end list
    (count, m) ← pass_loop max_elems m end first 0
    let rest = sort_loop fuel m list
    if ltb 1 count then rest else some m

  unfoldable pub list_sort : Links → ℕ → Option Links
  list_sort m list = do
    assert (not (list == 0))
    m ← sort_loop max_elems m list
    first ← list_begin m list
    end ← list_end list
    ordered ← is_sorted m first end
    assert ordered
    some m

  -- `duplicates` may be a null pointer.
  abbrev pub keep_duplicate : Links → ℕ → ℕ → Option Links
  keep_duplicate m duplicates next = if duplicates == 0 then some m else push_back m duplicates next

  unfoldable pub unique_loop : ℕ → Links → ℕ → ℕ → ℕ → Option Links
  unique_loop zero m end duplicates elem = none
  unique_loop (suc fuel) m end duplicates elem = do
    next ← list_next m elem
    let drop_it = (do
      (_, m) ← list_remove m next
      m ← keep_duplicate m duplicates next
      unique_loop fuel m end duplicates elem)
    let keep_it = unique_loop fuel m end duplicates next
    if next == end
        then some m
        else (if not (less elem next) && not (less next elem) then drop_it else keep_it)

  unfoldable pub list_unique : Links → ℕ → ℕ → Option Links
  list_unique m list duplicates = do
    assert (not (list == 0))
    empty ← list_empty m list
    first ← list_begin m list
    end ← list_end list
    let unique = unique_loop max_elems m end duplicates first
    if empty then some m else unique
