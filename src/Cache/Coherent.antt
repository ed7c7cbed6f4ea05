-- ===== src/Cache/Coherent.antt =====
-- What the cache and the device together hold: one sequence of sectors.
use mathlib.Core.Path.{subst}
use course_archive.Prelude.{
  ℕ, ◌<◌, ◌≡◌, sym, ◌∙◌, ap, ◌≢◌, ◌⊎◌, inl, inr, true, false, ◌==◌, length, length-set, get_or-set,
  Bool-cases, arith,
}
use course_archive.Block.{Sector, BlockOps, is_foreign}
use course_archive.Cache.{Cell, Cache, cell, set_cell, blank, cache_size}

-- To compare two indices.
pub same_or_not : (i j : ℕ) → (i ≡ j) ⊎ (i ≢ j)
same_or_not i j = elim (Bool-cases (i == j)) [
  | inl e ↦ inl (ground arith)
  | inr e ↦ inr (ground arith)
]

module _ {Disk : Type 0} where
  pub cell-set_self :
      (c : Cache Disk) (i : ℕ) (x : Cell) → i < length c.cells → cell (set_cell c i x) i ≡ x
  cell-set_self c i x h = ground (arith, get_or-set c.cells i i x blank h)

  pub cell-set_ne :
      (c : Cache Disk) (i j : ℕ) (x : Cell)
      → i < length c.cells
      → j ≢ i
      → cell (set_cell c i x) j ≡ cell c j
  cell-set_ne c i j x h ne = ground (arith, get_or-set c.cells i j x blank h)

  module _ (ops : BlockOps Disk) where
    -- The cache `c` over its device holds the sectors `f`: a valid cell has the bytes of its
    -- sector, no two have the same, and the device has every sector of which no cell is dirty.
    pub record Coherent (c : Cache Disk) (f : ℕ → Sector) : Type 0 where
      pub count : length c.cells ≡ cache_size
      pub hand : c.clock_idx < cache_size
      pub own : is_foreign c.fs_device.type ≡ false
      pub unique :
          (i j : ℕ)
          → i < cache_size
          → j < cache_size
          → (cell c i).valid ≡ true
          → (cell c j).valid ≡ true
          → (cell c i).sector_idx ≡ (cell c j).sector_idx
          → i ≡ j
      pub cached :
          (i : ℕ)
          → i < cache_size
          → (cell c i).valid ≡ true
          → (cell c i).block_data ≡ f (cell c i).sector_idx
      pub dirty_valid : (i : ℕ) → i < cache_size → (cell c i).dirty ≡ true → (cell c i).valid ≡ true
      pub present :
          (i : ℕ)
          → i < cache_size
          → (cell c i).valid ≡ true
          → (cell c i).sector_idx < c.fs_device.size
      pub stored :
          (s : ℕ)
          → ((i : ℕ) → i < cache_size → (cell c i).dirty ≡ true → (cell c i).sector_idx ≢ s)
          → ops.read c.fs_device.aux s ≡ f s

    -- The same, of every cell but `idx` and every sector but `k`, which no other cell holds.
    pub record CoherentBut (idx k : ℕ) (c : Cache Disk) (f : ℕ → Sector) : Type 0 where
      pub count : length c.cells ≡ cache_size
      pub hand : c.clock_idx < cache_size
      pub own : is_foreign c.fs_device.type ≡ false
      pub unique :
          (i j : ℕ)
          → i < cache_size
          → j < cache_size
          → i ≢ idx
          → j ≢ idx
          → (cell c i).valid ≡ true
          → (cell c j).valid ≡ true
          → (cell c i).sector_idx ≡ (cell c j).sector_idx
          → i ≡ j
      pub other :
          (i : ℕ) → i < cache_size → i ≢ idx → (cell c i).valid ≡ true → (cell c i).sector_idx ≢ k
      pub cached :
          (i : ℕ)
          → i < cache_size
          → i ≢ idx
          → (cell c i).valid ≡ true
          → (cell c i).block_data ≡ f (cell c i).sector_idx
      pub dirty_valid :
          (i : ℕ) → i < cache_size → i ≢ idx → (cell c i).dirty ≡ true → (cell c i).valid ≡ true
      pub present :
          (i : ℕ)
          → i < cache_size
          → i ≢ idx
          → (cell c i).valid ≡ true
          → (cell c i).sector_idx < c.fs_device.size
      pub stored :
          (s : ℕ)
          → s ≢ k
          → ((i : ℕ)
              → i < cache_size
              → i ≢ idx
              → (cell c i).dirty ≡ true
              → (cell c i).sector_idx ≢ s)
          → ops.read c.fs_device.aux s ≡ f s

    module _ {c : Cache Disk} {f : ℕ → Sector} where
      -- Leave a valid cell out.
      pub leave_out :
          (idx : ℕ)
          → Coherent c f
          → idx < cache_size
          → (cell c idx).valid ≡ true
          → CoherentBut idx (cell c idx).sector_idx c f
      leave_out idx h lt valid = record {
        count = h.count;
        hand = h.hand;
        own = h.own;
        unique = λ i j hi hj ni nj. h.unique i j hi hj;
        other = λ i hi ni vi e. ni (h.unique i idx hi lt vi valid e);
        cached = λ i hi ni. h.cached i hi;
        dirty_valid = λ i hi ni. h.dirty_valid i hi;
        present = λ i hi ni. h.present i hi;
        stored = λ s ne clean. h.stored s λ i hi d. elim (same_or_not i idx) [
          | inl e ↦ λ q. ne (sym q ∙ ap (λ j. (cell c j).sector_idx) e)
          | inr n ↦ clean i hi n d
        ];
      }

      -- The device has the sector of a clean cell.
      pub stored_of_clean :
          (idx : ℕ)
          → Coherent c f
          → idx < cache_size
          → (cell c idx).valid ≡ true
          → (cell c idx).dirty ≡ false
          → ops.read c.fs_device.aux (cell c idx).sector_idx ≡ f (cell c idx).sector_idx
      stored_of_clean idx h lt valid clean = h.stored _ λ i hi d e.
          let same : i ≡ idx = h.unique i idx hi lt (h.dirty_valid i hi d) valid e in
          cc (ap (λ j. (cell c j).dirty) same)

      module _ {idx k : ℕ} (h : CoherentBut idx k c f) (lt : idx < cache_size) where
        -- Nothing is said of the sector `k`.
        pub CoherentBut-change :
            (g : ℕ → Sector) → ((s : ℕ) → s ≢ k → g s ≡ f s) → CoherentBut idx k c g
        CoherentBut-change g same = record {
          count = h.count;
          hand = h.hand;
          own = h.own;
          unique = h.unique;
          other = h.other;
          cached = λ i hi ni v. h.cached i hi ni v ∙ sym (same _ (h.other i hi ni v));
          dirty_valid = h.dirty_valid;
          present = h.present;
          stored = λ s ne clean. h.stored s ne clean ∙ sym (same s ne);
        }

        -- A property of every cell after a cell is written.
        at_each :
            (P : Cell → Type 0) (x : Cell) (i : ℕ)
            → (i ≡ idx → P x)
            → (i ≢ idx → P (cell c i))
            → P (cell (set_cell c idx x) i)
        at_each P x i new old =
            let room : idx < length c.cells = omega (arith, h.count) in
            elim (same_or_not i idx) [
              | inl e ↦ rw (e, cell-set_self c idx x room) (new e)
              | inr n ↦ rw (cell-set_ne c idx i x room n) (old n)
            ]

        -- What is written at `idx` agrees with the sectors: it holds `k`, or nothing.
        pub put_cell :
            (x : Cell)
            → (x.valid ≡ true → (x.sector_idx ≡ k) × (x.block_data ≡ f k) × (k < c.fs_device.size))
            → (x.dirty ≡ true → x.valid ≡ true)
            → (x.dirty ≡ false → ops.read c.fs_device.aux k ≡ f k)
            → Coherent (set_cell c idx x) f
        put_cell x holds marked synced = record {
          count = length-set c.cells idx x ∙ h.count;
          hand = h.hand;
          own = h.own;
          unique = λ i j hi hj.
              at_each
                (λ y.
                  y.valid ≡ true
                  → (cell (set_cell c idx x) j).valid ≡ true
                  → y.sector_idx ≡ (cell (set_cell c idx x) j).sector_idx
                  → i ≡ j)
                x i
                (λ ei.
                  at_each
                    (λ z. x.valid ≡ true → z.valid ≡ true → x.sector_idx ≡ z.sector_idx → i ≡ j) x j
                    (λ ej _ _ _. ei ∙ sym ej)
                    (λ nj vx vj e. absurd (h.other j hj nj vj (sym e ∙ (holds vx).0))))
                (λ ni.
                  at_each
                    (λ z.
                      (cell c i).valid ≡ true
                      → z.valid ≡ true
                      → (cell c i).sector_idx ≡ z.sector_idx
                      → i ≡ j)
                    x j (λ ej vi vx e. absurd (h.other i hi ni vi (e ∙ (holds vx).0)))
                    (λ nj. h.unique i j hi hj ni nj));
          cached = λ i hi.
              at_each (λ y. y.valid ≡ true → y.block_data ≡ f y.sector_idx) x i
                (λ e v. (holds v).1 ∙ ap f (sym (holds v).0)) (h.cached i hi);
          dirty_valid = λ i hi.
              at_each (λ y. y.dirty ≡ true → y.valid ≡ true) x i (λ _. marked) (h.dirty_valid i hi);
          present = λ i hi.
              at_each (λ y. y.valid ≡ true → y.sector_idx < c.fs_device.size) x i
                (λ e v. rw ((holds v).0) ((holds v).2)) (h.present i hi);
          stored = λ s clean. elim (same_or_not s k) [
            | inl e ↦ rw e (elim (Bool-cases x.dirty) [
              | inl d ↦ absurd (
                  clean idx lt (subst (λ (y : Cell). y.dirty ≡ true) (sym self) d) (
                    subst (λ (y : Cell). y.sector_idx ≡ s) (sym self)
                      ((holds (marked d)).0 ∙ sym e)))
              | inr d ↦ synced d
            ])
            | inr n ↦ h.stored s n λ i hi ni d.
                let same = cell-set_ne c idx i x room ni in
                subst (λ (y : Cell). y.sector_idx ≢ s) same
                  (clean i hi (subst (λ (y : Cell). y.dirty ≡ true) (sym same) d))
          ];
        }
          where
            room : idx < length c.cells
            room = omega (arith, h.count)

            self : cell (set_cell c idx x) idx ≡ x
            self = cell-set_self c idx x room
