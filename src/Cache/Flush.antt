-- ===== src/Cache/Flush.antt =====
-- The start and the flush of the cache.
use course_archive.Prelude.{
  ℕ, zero, suc, ◌+◌, ◌<◌, ◌≡◌, refl, ◌∙◌, ap, ◌≢◌, inl, inr, true, false, length, length-set,
  Returns, Bool-cases, lt→ltb, arith,
}
use course_archive.Block.{Sector, BlockOps, Block, IsStore, is_foreign}
use course_archive.Cache.{
  Cell, Cache, cell, set_cell, cache_size, init_loop, init, flush_cell, flush_loop, flush,
}
use course_archive.Cache.Coherent.{
  same_or_not, CoherentBut, leave_out, put_cell, cell-set_self, cell-set_ne,
}
use course_archive.Cache.Refine.{Ready}

-- As `cache_init` leaves a cell.
abbrev IsReset : Cell → Type 0
IsReset x = (x.valid ≡ false) × (x.dirty ≡ false) × (x.num_using ≡ 0)

module _ {Disk : Type 0} where
  record Reset (c c' : Cache Disk) : Type 0 where
    reset : (j : ℕ) → j < cache_size → IsReset (cell c' j)
    count : length c'.cells ≡ cache_size
    clock_idx : c'.clock_idx ≡ c.clock_idx
    device : c'.fs_device ≡ c.fs_device

  init_loop-Reset :
      (n i : ℕ) (c : Cache Disk)
      → i + n ≡ cache_size
      → length c.cells ≡ cache_size
      → ((j : ℕ) → j < i → IsReset (cell c j))
      → Reset c (init_loop n i c)
  unfolding init_loop
  init_loop-Reset zero i c e len before = record {
    reset = λ j h. before j (omega arith);
    count = len;
    clock_idx = refl;
    device = refl;
  }
  init_loop-Reset (suc n) i c e len before =
      let x = record (cell c i) {
        valid = false;
        num_using = 0;
        sector_idx = 0;
        dirty = false;
        recently_accessed = false;
      } in
      let w =
        init_loop-Reset n (i + 1) (set_cell c i x) (omega arith) (length-set c.cells i x ∙ len)
          (λ j h. elim (same_or_not j i) [
            | inl here ↦ rw (here, cell-set_self c i x (omega arith)) (refl, refl, refl)
            | inr there ↦ rw (cell-set_ne c i j x (omega arith) there) (before j (omega arith))
          ]) in
      record { reset = w.reset; count = w.count; clock_idx = w.clock_idx; device = w.device }

module _ {Disk : Type 0} (ops : BlockOps Disk) where
  -- After `cache_init` the cache holds what the device holds, and no cell is in use.
  pub init-Ready :
      (c : Cache Disk)
      → length c.cells ≡ cache_size
      → is_foreign c.fs_device.type ≡ false
      → Ready ops c.fs_device.size (init c) (ops.read c.fs_device.aux)
  unfolding init
  init-Ready c len own =
      let w =
        init_loop-Reset cache_size 0 (record c { clock_idx = 0 }) refl len
          (λ j h. absurd (omega arith)) in
      record {
        coherent = record {
          count = w.count;
          hand = omega (arith, w.clock_idx);
          own = ground (arith, w.device, own);
          unique = λ i j hi hj vi. cc ((w.reset i hi).0);
          cached = λ i hi v. cc ((w.reset i hi).0);
          dirty_valid = λ i hi d. cc ((w.reset i hi).1);
          present = λ i hi v. cc ((w.reset i hi).0);
          stored = λ s clean. ap (λ (d : Block Disk). ops.read d.aux s) w.device;
        };
        idle = λ i hi. (w.reset i hi).2;
        size = ap (λ (d : Block Disk). d.size) w.device;
      }

  -- What flushing one cell does.
  record Flushed (n i : ℕ) (f : ℕ → Sector) (c c' : Cache Disk) : Type 0 where
    ready : Ready ops n c' f
    clean : (cell c' i).dirty ≡ false
    others : (j : ℕ) → j ≢ i → cell c' j ≡ cell c j

  module _ (store : IsStore ops) {n : ℕ} {f : ℕ → Sector} where
    flush_cell-Flushed :
        (i : ℕ) {c : Cache Disk}
        → i < cache_size
        → Ready ops n c f
        → Returns (Flushed n i f c) (flush_cell ops i c)
    unfolding flush_cell
    flush_cell-Flushed i {c} lt r =
        let h = r.coherent in
        let x = cell c i in
        elim (Bool-cases x.dirty) [
          | inr d ↦ elim (Bool-cases x.valid) [
            | inl v ↦ rw (v, d) (c, refl, record { ready = r; clean = d; others = λ j ne. refl })
            | inr v ↦ rw v (c, refl, record { ready = r; clean = d; others = λ j ne. refl })
          ]
          | inl d ↦
              let v = h.dirty_valid i lt d in
              rw (v, d, lt→ltb _ _ (h.present i lt v), h.own)
                (_, refl, written d v _ refl refl refl)
        ]
      where
        cleared : Cell
        cleared = record (cell c i) { dirty = false; valid = false }

        written :
            (cell c i).dirty ≡ true
            → (cell c i).valid ≡ true
            → (d : Block Disk)
            → d.aux ≡ ops.write c.fs_device.aux (cell c i).sector_idx (cell c i).block_data
            → d.size ≡ c.fs_device.size
            → d.type ≡ c.fs_device.type
            → Flushed n i f c (set_cell (record c { fs_device = d }) i cleared)
        written dirty v d e size type =
            let h = r.coherent in
            let b = leave_out ops i h lt v in
            let room : i < length c.cells = omega (arith, h.count) in
            let now = λ (s : ℕ).
              ap (λ a. ops.read a s) e
              ∙ store.read-write c.fs_device.aux (cell c i).sector_idx s (cell c i).block_data in
            let but : CoherentBut ops i (cell c i).sector_idx (record c { fs_device = d }) f =
              record {
                count = b.count;
                hand = b.hand;
                own = ground (arith, b.own);
                unique = b.unique;
                other = b.other;
                cached = b.cached;
                dirty_valid = b.dirty_valid;
                present = λ j hj nj vj. rw size (b.present j hj nj vj);
                stored = λ s ne clean. ground (arith, now s, b.stored s ne clean);
              } in
            record {
              ready = record {
                coherent =
                    put_cell ops but lt cleared (λ q. cc) (λ q. cc)
                      (λ _. ground (arith, now (cell c i).sector_idx, h.cached i lt v));
                idle = λ j hj. elim (same_or_not j i) [
                  | inl here ↦
                      rw (here, cell-set_self (record c { fs_device = d }) i cleared room)
                        (r.idle i lt)
                  | inr there ↦
                      rw (cell-set_ne (record c { fs_device = d }) i j cleared room there)
                        (r.idle j hj)
                ];
                size = size ∙ r.size;
              };
              clean = rw (cell-set_self (record c { fs_device = d }) i cleared room) refl;
              others = λ j ne. cell-set_ne (record c { fs_device = d }) i j cleared room ne;
            }

    flush_loop-Ready :
        (m i : ℕ) {c : Cache Disk}
        → i + m ≡ cache_size
        → Ready ops n c f
        → ((j : ℕ) → j < i → (cell c j).dirty ≡ false)
        → Returns
            (λ c'. Ready ops n c' f × ((j : ℕ) → j < cache_size → (cell c' j).dirty ≡ false))
            (flush_loop ops m i c)
    unfolding flush_loop
    flush_loop-Ready zero i {c} e r before = (c, refl, (r, λ j h. before j (omega arith)))
    flush_loop-Ready (suc m) i {c} e r before =
        let (c', e', w) = flush_cell-Flushed i {c = c} (omega arith) r in
        let (c'', e'', w') = flush_loop-Ready m (i + 1) {c = c'} (omega arith) w.ready (λ j h.
          elim (same_or_not j i) [
            | inl here ↦ rw here w.clean
            | inr there ↦ rw (w.others j there) (before j (omega arith))
          ]) in
        (c'', rw e' e'', w')

    -- `cache_flush` brings the device up to date: afterwards it has every sector as cache and
    -- device held it together, and so they do still.
    pub flush-Ready :
        {c : Cache Disk}
        → Ready ops n c f
        → Returns
            (λ c'. Ready ops n c' f × ((s : ℕ) → ops.read c'.fs_device.aux s ≡ f s))
            (flush ops c)
    unfolding flush
    flush-Ready {c} r =
        let (c', e, (r', clean)) =
          flush_loop-Ready cache_size 0 {c = c} refl r (λ j h. absurd (omega arith)) in
        (c', e, (r', λ s. r'.coherent.stored s (λ i hi d. cc (clean i hi))))
