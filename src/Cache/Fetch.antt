-- ===== src/Cache/Fetch.antt =====
-- Search, write back and fill: `cache_fetch` finds or makes a cell for a sector.
use mathlib.Core.Path.{subst}
use course_archive.Prelude.{
  ℕ, zero, suc, ◌+◌, ◌<◌, ◌≡◌, refl, sym, ◌∙◌, ap, ◌≢◌, inl, inr, true, ◌&&◌, Option, none, some,
  ◌==◌, Bool-cases, arith,
}
use course_archive.Block.{Sector, BlockOps, Block}
use course_archive.Cache.{Cache, cell, cache_size, search_loop, search}
use course_archive.Cache.Evict.{Frame}
use course_archive.Cache.Coherent.{same_or_not, Coherent}

module _ {Disk : Type 0} where
  -- `c'` differs from `c` in its statistics at most.
  pub record SameBlocks (c c' : Cache Disk) : Type 0 where
    pub cells : c'.cells ≡ c.cells
    pub clock_idx : c'.clock_idx ≡ c.clock_idx
    pub fs_device : c'.fs_device ≡ c.fs_device

  -- What `cache_search` finds.
  abbrev pub Found : Cache Disk → ℕ → Option ℕ → Type 0
  Found c sector (some i) =
      (i < cache_size) × ((cell c i).valid ≡ true) × ((cell c i).sector_idx ≡ sector)
  Found c sector none =
      (i : ℕ) → i < cache_size → (cell c i).valid ≡ true → (cell c i).sector_idx ≢ sector

  search_loop-Found :
      (n i : ℕ) (c : Cache Disk) (sector : ℕ)
      → i + n ≡ cache_size
      → ((j : ℕ) → j < i → (cell c j).valid ≡ true → (cell c j).sector_idx ≢ sector)
      → Found c sector (search_loop n i c sector).0 × SameBlocks c (search_loop n i c sector).1
  unfolding search_loop
  search_loop-Found zero i c sector e before =
      (λ j h. before j (omega arith), record { cells = refl; clock_idx = refl; fs_device = refl })
  search_loop-Found (suc n) i c sector e before =
      elim (Bool-cases ((cell c i).sector_idx == sector && (cell c i).valid)) [
        | inl hit ↦ rw hit (
          (omega arith, ground arith, ground arith),
          record { cells = refl; clock_idx = refl; fs_device = refl },
        )
        | inr miss ↦ rw miss (
            search_loop-Found n (i + 1) c sector (omega arith) λ j h. elim (same_or_not j i) [
              | inl here ↦ rw here (ground arith)
              | inr there ↦ before j (omega arith)
            ])
      ]

  pub search-Found :
      (c : Cache Disk) (sector : ℕ)
      → Found c sector (search c sector).0 × SameBlocks c (search c sector).1
  unfolding search
  search-Found c sector = search_loop-Found cache_size 0 c sector refl (λ j h. absurd (omega arith))

  -- No cell is in use.
  abbrev pub IsIdle : Cache Disk → Type 0
  IsIdle c = (i : ℕ) → i < cache_size → (cell c i).num_using ≡ 0

  module _ (ops : BlockOps Disk) where
    pub SameBlocks-Coherent :
        {c c' : Cache Disk} {f : ℕ → Sector}
        → SameBlocks c c'
        → Coherent ops c f
        → Coherent ops c' f
    SameBlocks-Coherent {c} {c'} {f} s h =
        subst (λ (x : Cache Disk). Coherent ops x f) same
          (record {
            count = h.count;
            hand = h.hand;
            own = h.own;
            unique = h.unique;
            cached = h.cached;
            dirty_valid = h.dirty_valid;
            present = h.present;
            stored = h.stored;
          })
      where
        same : record c { hit = c'.hit; miss = c'.miss } ≡ c'
        same = ground (arith, s.cells, s.clock_idx, s.fs_device)

    -- The clock changes nothing that is held.
    pub Frame-Coherent :
        {c c' : Cache Disk} {f : ℕ → Sector}
        → Frame c c'
        → c'.clock_idx < cache_size
        → Coherent ops c f
        → Coherent ops c' f
    Frame-Coherent {c} {c'} {f} s hand h = record {
      count = s.length ∙ h.count;
      hand = hand;
      own = ground (arith, s.device, h.own);
      unique = λ i j hi hj vi vj e.
          h.unique i j hi hj (sym (s.kept i).valid ∙ vi) (sym (s.kept j).valid ∙ vj)
            (sym (s.kept i).sector_idx ∙ e ∙ (s.kept j).sector_idx);
      cached = λ i hi v.
          (s.kept i).block_data
          ∙ h.cached i hi (sym (s.kept i).valid ∙ v)
          ∙ ap f (sym (s.kept i).sector_idx);
      dirty_valid = λ i hi d. (s.kept i).valid ∙ h.dirty_valid i hi (sym (s.kept i).dirty ∙ d);
      present = λ i hi v. ground (arith, s.device, s.kept i, h.present i hi);
      stored = λ t clean.
          ap (λ (b : Block Disk). ops.read b.aux t) s.device
          ∙ h.stored t (λ i hi d e. clean i hi ((s.kept i).dirty ∙ d) ((s.kept i).sector_idx ∙ e));
    }
