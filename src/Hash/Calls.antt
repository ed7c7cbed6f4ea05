-- ===== src/Hash/Calls.antt =====
-- `hash_insert`, `hash_replace` and `hash_delete` on what a table holds.
use course_archive.Prelude.{
  ℕ, ◌≡◌, refl, ◌∙◌, ap, Bool, not, ◌&&◌, ◌||◌, Option, none, some, ◌==◌, Returns,
}
use course_archive.LinkedList.Chain.{has}
use course_archive.Hash.{
  Table, find_bucket, find_elem, insert_elem, remove_elem, insert_missing, remove_found,
  delete_found, hash_find, hash_insert, hash_replace, hash_delete,
}
use course_archive.Hash.Valid.{IsOrder, holds, IsValid}
use course_archive.Hash.Find.{Finds, find_elem-Finds}
use course_archive.Hash.Rehash.{rehash-holds}
use course_archive.Hash.Change.{
  is_same, is_missing, insert_elem-holds, IsValid-insert, insert_missing-holds, remove_found-holds,
  removed-apart,
}

module _ (hash : ℕ → ℕ) (less : ℕ → ℕ → Bool) (order : IsOrder hash less) where
  module _ (h : Table) (v : IsValid hash less h) (e : ℕ) where
    -- `hash_insert` does not panic and returns what `hash_find` finds. Where it finds nothing, the
    -- table holds the new element after it; all else that it held it holds, and nothing more.
    pub hash_insert-holds :
        (storage : Bool)
        → Returns
            (λ (old, h').
              IsValid hash less h'
              × (old ≡ hash_find hash less h e)
              × ((y : ℕ)
                  → holds hash less h' y ≡ ((is_missing old && (y == e)) || holds hash less h y)))
            (hash_insert hash less storage h e)
    unfolding hash_insert hash_find
    hash_insert-holds storage =
        let b = find_bucket hash less h e in
        let o = find_elem hash less (h.buckets b) e in
        let (v1, s1) =
          insert_missing-holds hash less order h v e o
            (find_elem-Finds hash less (h.buckets b) e) in
        let (h2, run, (v2, s2)) =
          rehash-holds hash less order storage (insert_missing hash less h b e o) v1 in
        rw run ((o, h2), refl, (v2, refl, λ y. s2 y ∙ s1 y))

    -- `hash_replace` does not panic and returns what `hash_find` finds. After it the table holds the
    -- new element, and all that it held but the one that is returned.
    pub hash_replace-holds :
        (storage : Bool)
        → Returns
            (λ (old, h').
              IsValid hash less h'
              × (old ≡ hash_find hash less h e)
              × ((y : ℕ)
                  → holds hash less h' y
                    ≡ ((y == e) || (holds hash less h y && not (is_same y old)))))
            (hash_replace hash less storage h e)
    unfolding hash_replace hash_find
    hash_replace-holds storage =
        let b = find_bucket hash less h e in
        let o = find_elem hash less (h.buckets b) e in
        let f = find_elem-Finds hash less (h.buckets b) e in
        let (v1, s1) = replaced o f in
        let (h2, run, (v2, s2)) =
          rehash-holds hash less order storage
            (insert_elem hash less (remove_found hash less h b o) b e) v1 in
        rw run ((o, h2), refl, (v2, refl, λ y. s2 y ∙ s1 y))
      where
        replaced :
            (o : Option ℕ)
            → Finds hash less (λ y. has y (h.buckets (find_bucket hash less h e))) e o
            → let h1 =
                insert_elem hash less
                  (remove_found hash less h (find_bucket hash less h e) o)
                  (find_bucket hash less h e)
                  e in
              IsValid hash less h1
              × ((y : ℕ)
                  → holds hash less h1 y ≡ ((y == e) || (holds hash less h y && not (is_same y o))))
        replaced none f =
            let (v1, s1) = remove_found-holds hash less order h v e none f in
            (
              IsValid-insert hash less order h v1 e (removed-apart hash less order h v e none f),
              λ y. insert_elem-holds hash less order h v1 e y ∙ ap (λ c. (y == e) || c) (s1 y),
            )
        replaced (some x) f =
            let (v1, s1) = remove_found-holds hash less order h v e (some x) f in
            let h1 = remove_elem hash less h (find_bucket hash less h e) x in
            (
              IsValid-insert hash less order h1 v1 e
                  (removed-apart hash less order h v e (some x) f),
              λ y. insert_elem-holds hash less order h1 v1 e y ∙ ap (λ c. (y == e) || c) (s1 y),
            )

    -- `hash_delete` does not panic and returns what `hash_find` finds. After it the table holds all
    -- that it held but the element that is returned.
    pub hash_delete-holds :
        (storage : Bool)
        → Returns
            (λ (found, h').
              IsValid hash less h'
              × (found ≡ hash_find hash less h e)
              × ((y : ℕ) → holds hash less h' y ≡ (holds hash less h y && not (is_same y found))))
            (hash_delete hash less storage h e)
    unfolding hash_delete hash_find
    hash_delete-holds storage =
        let b = find_bucket hash less h e in
        let o = find_elem hash less (h.buckets b) e in
        let (v1, s1) =
          remove_found-holds hash less order h v e o (find_elem-Finds hash less (h.buckets b) e) in
        let (h2, run, (v2, s2)) = deletes b o v1 in
        rw run ((o, h2), refl, (v2, refl, λ y. s2 y ∙ s1 y))
      where
        deletes :
            (b : ℕ) (o : Option ℕ)
            → IsValid hash less (remove_found hash less h b o)
            → Returns
                (λ h2.
                  IsValid hash less h2
                  × ((y : ℕ)
                      → holds hash less h2 y ≡ holds hash less (remove_found hash less h b o) y))
                (delete_found hash less storage h b o)
        deletes b none v1 = (h, refl, (v1, λ y. refl))
        deletes b (some x) v1 =
            rehash-holds hash less order storage (remove_elem hash less h b x) v1
