-- ===== src/Cache/Run.antt =====
-- Any sequence of calls of the cache, against an array of sectors.
use course_archive.Prelude.{
  ℕ, ◌+◌, ◌≤◌, ◌<◌, ◌≡◌, refl, ap, some, Option, List, [], ◌∷◌, length, take, drop, ◌>>=◌,
}
use course_archive.Block.{Sector, BlockOps, IsStore, block_sector_size}
use course_archive.Cache
use course_archive.Cache.{Cache, splice}
use course_archive.Cache.Refine.{Ready, update, read-Reads, write-Writes}
use course_archive.Cache.Flush.{flush-Ready}

-- A call of `cache_read`, `cache_write`, `cache_flush` or `cache_reset_hit_miss`.
pub data Call : Type 0 where
  get : (sector offset size : ℕ) → Call
  put : (sector offset : ℕ) (buffer : List ℕ) → Call
  sync : Call
  reset_statistics : Call

-- The calls address sectors of the device, and bytes inside a sector.
abbrev pub InBounds : ℕ → Call → Type 0
InBounds n (get sector offset size) = (sector < n) × (offset + size ≤ block_sector_size)
InBounds n (put sector offset buffer) = (sector < n) × (offset + length buffer ≤ block_sector_size)
InBounds n sync = Unit
InBounds n reset_statistics = Unit

abbrev pub AllInBounds : ℕ → List Call → Type 0
AllInBounds n [] = Unit
AllInBounds n (x ∷ xs) = InBounds n x × AllInBounds n xs

-- What the calls return from an array of sectors, and the array after them.
unfoldable pub spec : (ℕ → Sector) → List Call → List (List ℕ)
spec f [] = []
spec f (get sector offset size ∷ calls) = take size (drop offset (f sector)) ∷ spec f calls
spec f (put sector offset buffer ∷ calls) =
    spec (update f sector (splice (f sector) offset buffer)) calls
spec f (sync ∷ calls) = spec f calls
spec f (reset_statistics ∷ calls) = spec f calls

module _ {Disk : Type 0} (ops : BlockOps Disk) where
  -- What the calls return from the cache.
  unfoldable pub run : Cache Disk → List Call → Option (List (List ℕ))
  run c [] = some []
  run c (get sector offset size ∷ calls) = do
    (bytes, c) ← Cache.read ops c sector offset size
    rest ← run c calls
    some (bytes ∷ rest)
  run c (put sector offset buffer ∷ calls) = do
    c ← Cache.write ops c sector offset buffer
    run c calls
  run c (sync ∷ calls) = do c ← Cache.flush ops c; run c calls
  run c (reset_statistics ∷ calls) = run (Cache.reset_hit_miss c) calls

  module _ (store : IsStore ops) {n : ℕ} where
    reset_hit_miss-Ready :
        {c : Cache Disk} {f : ℕ → Sector} → Ready ops n c f → Ready ops n (Cache.reset_hit_miss c) f
    unfolding Cache.reset_hit_miss
    reset_hit_miss-Ready r =
        let h = r.coherent in
        record {
          coherent = record {
            count = h.count;
            hand = h.hand;
            own = h.own;
            unique = h.unique;
            cached = h.cached;
            dirty_valid = h.dirty_valid;
            present = h.present;
            stored = h.stored;
          };
          idle = r.idle;
          size = r.size;
        }

    -- No sequence of calls inside the device tells the cache from an array of sectors, and none
    -- panics.
    pub run_refines :
        (calls : List Call) {c : Cache Disk} {f : ℕ → Sector}
        → Ready ops n c f
        → AllInBounds n calls
        → run c calls ≡ some (spec f calls)
    unfolding run spec
    run_refines [] r ok = refl
    run_refines (get sector offset size ∷ calls) {f} r ((inside, fits), ok) =
        let ((bytes, c'), e, (same, r', _)) =
          read-Reads ops store r sector offset inside size fits in
        rw (e, run_refines calls r' ok) (ap (λ (b : List ℕ). some (b ∷ spec f calls)) same)
    run_refines (put sector offset buffer ∷ calls) r ((inside, fits), ok) =
        let (c', e, (r', _)) = write-Writes ops store r sector offset inside buffer fits in
        rw e (run_refines calls r' ok)
    run_refines (sync ∷ calls) r (_, ok) =
        let (c', e, (r', now)) = flush-Ready ops store r in rw e (run_refines calls r' ok)
    run_refines (reset_statistics ∷ calls) r (_, ok) = run_refines calls (reset_hit_miss-Ready r) ok
