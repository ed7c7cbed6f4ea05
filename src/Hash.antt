-- ===== src/Hash.antt =====
-- PintOS/src/lib/kernel/hash.c: hash tables. An element is its address, a bucket the sequence of its
-- elements (LinkedList says how memory holds it), and the array of buckets a function of the index,
-- which the table asks for indices below `bucket_cnt` only. `hash` and `less` stand for the caller's
-- functions with their auxiliary data; a result `none` beside a table is the null pointer.

pub mod Valid
pub mod Find
pub mod Rehash
pub mod Change
pub mod Calls
pub mod Run
mod Tests
use Prim.Native.Nat.{bit_and, bit_xor}
use course_archive.Prelude.{
  ℕ, zero, suc, ◌+◌, ◌-◌, ◌*◌, ◌/◌, ◌%◌, ◌^◌, Bool, true, false, not, ◌&&◌, Option, none, some,
  List, [], ◌∷◌, ◌==◌, ltb, if◌then◌else◌, ◌>>=◌,
}
use course_archive.Thread.{remove}

pub record Table : Type 0 where
  pub elem_cnt : ℕ
  pub bucket_cnt : ℕ
  pub buckets : ℕ → List ℕ

abbrev pub best_elems_per_bucket : ℕ
best_elems_per_bucket = 2

-- The array with another bucket at an index.
abbrev pub set_bucket : (ℕ → List ℕ) → ℕ → List ℕ → ℕ → List ℕ
set_bucket buckets b l i = if i == b then l else buckets i

abbrev pub hash_clear : Table → Table
hash_clear h = record h {
  elem_cnt = 0;
  buckets = λ i. if ltb i h.bucket_cnt then [] else h.buckets i;
}

-- `storage` is whether `malloc` succeeds, and `fresh` what the new array holds.
abbrev pub hash_init : Bool → (ℕ → List ℕ) → Option Table
hash_init storage fresh =
    if storage
    then some (hash_clear (record { elem_cnt = 0; bucket_cnt = 4; buckets = fresh }))
    else none

abbrev pub hash_size : Table → ℕ
hash_size h = h.elem_cnt

abbrev pub hash_empty : Table → Bool
hash_empty h = h.elem_cnt == 0

abbrev pub fnv_32_prime : ℕ
fnv_32_prime = 16777619

abbrev pub fnv_32_basis : ℕ
fnv_32_basis = 2166136261

-- The loops of `hash_bytes` and `hash_string`, on the bytes and on those before the null character.
abbrev pub fnv_loop : ℕ → List ℕ → ℕ
fnv_loop hash [] = hash
fnv_loop hash (c ∷ buf) = fnv_loop (bit_xor (hash * fnv_32_prime % 2 ^ 32) c) buf

abbrev pub hash_bytes : List ℕ → ℕ
hash_bytes buf = fnv_loop fnv_32_basis buf

abbrev pub until_null : List ℕ → Option (List ℕ)
until_null [] = none
until_null (c ∷ s) =
    let rest = (do l ← until_null s; some (c ∷ l)) in if c == 0 then some [] else rest

-- The string has to end inside the memory that is given.
abbrev pub hash_string : List ℕ → Option ℕ
hash_string s = do l ← until_null s; some (fnv_loop fnv_32_basis l)

abbrev pub hash_int : ℕ → ℕ
hash_int i = hash_bytes (i % 256 ∷ i / 256 % 256 ∷ i / 65536 % 256 ∷ i / 16777216 % 256 ∷ [])

abbrev pub turn_off_least_1bit : ℕ → ℕ
turn_off_least_1bit x = bit_and x ((x + 2 ^ 32 - 1) % 2 ^ 32)

abbrev pub is_power_of_2 : ℕ → Bool
is_power_of_2 x = not (x == 0) && (turn_off_least_1bit x == 0)

-- `while (!is_power_of_2 (new_bucket_cnt))`: each round makes the number smaller.
unfoldable pub power_loop : ℕ → ℕ → Option ℕ
power_loop zero x = if is_power_of_2 x then some x else none
power_loop (suc fuel) x =
    let rest = power_loop fuel (turn_off_least_1bit x) in if is_power_of_2 x then some x else rest

abbrev pub wanted_buckets : Table → Option ℕ
wanted_buckets h =
    let n = h.elem_cnt / best_elems_per_bucket in
    let least = if ltb n 4 then 4 else n in power_loop least least

module _ (hash : ℕ → ℕ) (less : ℕ → ℕ → Bool) where
  -- The bucket of an element in a table with `cnt` buckets.
  abbrev pub bucket_idx : ℕ → ℕ → ℕ
  bucket_idx cnt e = bit_and (hash e) ((cnt + 2 ^ 32 - 1) % 2 ^ 32)

  abbrev pub find_bucket : Table → ℕ → ℕ
  find_bucket h e = bucket_idx h.bucket_cnt e

  unfoldable pub equal : ℕ → ℕ → Bool
  equal a b = not (less a b) && not (less b a)

  unfoldable pub find_elem : List ℕ → ℕ → Option ℕ
  find_elem [] e = none
  find_elem (x ∷ l) e = if equal x e then some x else find_elem l e

  -- The inner loop of `rehash`.
  unfoldable pub move_loop : ℕ → (ℕ → List ℕ) → List ℕ → ℕ → List ℕ
  move_loop cnt new [] = new
  move_loop cnt new (e ∷ l) =
      let b = bucket_idx cnt e in move_loop cnt (set_bucket new b (e ∷ new b)) l

  -- The outer loop, for the `left` buckets from the index on.
  unfoldable pub rehash_loop : ℕ → ℕ → (ℕ → List ℕ) → (ℕ → List ℕ) → ℕ → ℕ → List ℕ
  rehash_loop zero cnt old new i = new
  rehash_loop (suc left) cnt old new i =
      rehash_loop left cnt old (move_loop cnt new (old i)) (suc i)

  unfoldable pub rehash : Bool → Table → Option Table
  rehash storage h = do
    cnt ← wanted_buckets h
    let moved = record h {
      bucket_cnt = cnt;
      buckets = rehash_loop h.bucket_cnt cnt h.buckets (λ i. []) 0;
    }
    some (if cnt == h.bucket_cnt then h else (if storage then moved else h))

  abbrev pub insert_elem : Table → ℕ → ℕ → Table
  insert_elem h b e = record h {
    elem_cnt = (h.elem_cnt + 1) % 2 ^ 32;
    buckets = set_bucket h.buckets b (e ∷ h.buckets b);
  }

  -- The element is in the bucket `b`.
  abbrev pub remove_elem : Table → ℕ → ℕ → Table
  remove_elem h b e = record h {
    elem_cnt = (h.elem_cnt + 2 ^ 32 - 1) % 2 ^ 32;
    buckets = set_bucket h.buckets b (remove e (h.buckets b));
  }

  unfoldable pub hash_find : Table → ℕ → Option ℕ
  hash_find h e = find_elem (h.buckets (find_bucket h e)) e

  -- What the calls do with an equal element, or without one.
  abbrev pub insert_missing : Table → ℕ → ℕ → Option ℕ → Table
  insert_missing h b new none = insert_elem h b new
  insert_missing h b new (some x) = h

  abbrev pub remove_found : Table → ℕ → Option ℕ → Table
  remove_found h b none = h
  remove_found h b (some x) = remove_elem h b x

  abbrev pub delete_found : Bool → Table → ℕ → Option ℕ → Option Table
  delete_found storage h b none = some h
  delete_found storage h b (some x) = rehash storage (remove_elem h b x)

  -- The calls that may rehash take whether `malloc` would succeed then.
  unfoldable pub hash_insert : Bool → Table → ℕ → Option (Option ℕ × Table)
  hash_insert storage h new = do
    let bucket = find_bucket h new
    let old = find_elem (h.buckets bucket) new
    h2 ← rehash storage (insert_missing h bucket new old)
    some (old, h2)

  unfoldable pub hash_replace : Bool → Table → ℕ → Option (Option ℕ × Table)
  hash_replace storage h new = do
    let bucket = find_bucket h new
    let old = find_elem (h.buckets bucket) new
    h2 ← rehash storage (insert_elem (remove_found h bucket old) bucket new)
    some (old, h2)

  unfoldable pub hash_delete : Bool → Table → ℕ → Option (Option ℕ × Table)
  hash_delete storage h e = do
    let bucket = find_bucket h e
    let found = find_elem (h.buckets bucket) e
    h2 ← delete_found storage h bucket found
    some (found, h2)
