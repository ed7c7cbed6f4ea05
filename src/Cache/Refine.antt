-- ===== src/Cache/Refine.antt =====
-- The cache and its device behave as one array of sectors.
use mathlib.Core.Path.{subst}
use course_archive.Prelude.{
  ℕ, ◌+◌, ◌≤◌, ◌<◌, ◌≡◌, refl, ◌∙◌, ap, ◌≢◌, inl, inr, true, false, List, ◌==◌, leb, if◌then◌else◌,
  length, take, drop, Returns, arith,
}
use course_archive.Block.{Sector, BlockOps, IsStore, block_sector_size}
use course_archive.Cache.{Cell, Cache, set_cell, read, write, splice}
use course_archive.Cache.Coherent.{
  same_or_not, Coherent, CoherentBut, CoherentBut-change, leave_out, stored_of_clean, put_cell,
  cell-set_self, cell-set_ne,
}
use course_archive.Cache.Fetch.{IsIdle}
use course_archive.Cache.Replace.{Settles, Fetched, fetch-Fetched}

abbrev pub update : (ℕ → Sector) → ℕ → Sector → ℕ → Sector
update f k bytes s = if s == k then bytes else f s

le→leb : (a b : ℕ) → a ≤ b → leb a b ≡ true
le→leb a b h = ground arith

module _ {Disk : Type 0} (ops : BlockOps Disk) where
  -- Between two calls: the cache and a device of `sectors` sectors hold `f`, and no cell is in use.
  pub record Ready (sectors : ℕ) (c : Cache Disk) (f : ℕ → Sector) : Type 0 where
    pub coherent : Coherent ops c f
    pub idle : IsIdle c
    pub size : c.fs_device.size ≡ sectors

  module _ (store : IsStore ops) where
    -- The cell in use is given back, with other bytes in it or not.
    give_back :
        {c c' : Cache Disk} {f g : ℕ → Sector} {n : ℕ} (k idx : ℕ) (x : Cell)
        → Fetched ops store c f k idx c'
        → c.fs_device.size ≡ n
        → x.sector_idx ≡ k
        → x.valid ≡ true
        → x.block_data ≡ g k
        → x.num_using ≡ 0
        → (x.dirty ≡ false → ops.read c'.fs_device.aux k ≡ g k)
        → ((s : ℕ) → s ≢ k → g s ≡ f s)
        → Ready n (set_cell c' idx x) g
    give_back {c} {c'} {f} {g} {n} k idx x w size sector valid bytes idle synced same =
        let but =
          CoherentBut-change ops
            (subst (λ (s : ℕ). CoherentBut ops idx s c' f) w.sector
              (leave_out ops idx w.coherent w.within w.valid))
            w.within g same in
        let room : idx < length c'.cells = omega (arith, w.coherent.count, w.within) in
        let fits = rw (w.sector) at (w.coherent.present idx w.within w.valid) in
        record {
          coherent = put_cell ops but w.within x (λ _. (sector, bytes, fits)) (λ _. valid) synced;
          idle = λ i hi. elim (same_or_not i idx) [
            | inl e ↦ rw (e, cell-set_self c' idx x room) idle
            | inr ne ↦ rw (cell-set_ne c' idx i x room ne) (w.idle i hi ne)
          ];
          size = w.size ∙ size;
        }

  module _ (store : IsStore ops) {n : ℕ} {c : Cache Disk} {f : ℕ → Sector} (r : Ready n c f)
      (k offset : ℕ) (inside : k < n) where
    -- `cache_read` returns the bytes that the sector holds, and leaves every sector as it was.
    pub read-Reads :
        (size : ℕ)
        → offset + size ≤ block_sector_size
        → Returns
            (λ (bytes, c').
              (bytes ≡ take size (drop offset (f k))) × Ready n c' f × Settles ops store c f c')
            (read ops c k offset size)
    unfolding read
    read-Reads size fits =
        let ((idx, c'), e, w) =
          fetch-Fetched ops store {c = c} {f = f} k r.coherent r.idle (omega (arith, r.size)) in
        let cached = rw (w.sector) at (w.coherent.cached idx w.within w.valid) in
        rw (e, le→leb _ _ fits)
          (
            _,
            refl,
            (
              ap (λ (b : Sector). take size (drop offset b)) cached,
              give_back store k idx _ w r.size w.sector w.valid cached (omega (arith, w.in_use))
                  (λ d. rw (w.sector) at (stored_of_clean ops idx w.coherent w.within w.valid d))
                  (λ s ne. refl),
              w.settles,
            ),
          )

    -- `cache_write` replaces the bytes of the sector from `offset` on, and no other sector's.
    pub write-Writes :
        (buffer : List ℕ)
        → offset + length buffer ≤ block_sector_size
        → Returns
            (λ c'. Ready n c' (update f k (splice (f k) offset buffer)) × Settles ops store c f c')
            (write ops c k offset buffer)
    unfolding write
    write-Writes buffer fits =
        let ((idx, c'), e, w) =
          fetch-Fetched ops store {c = c} {f = f} k r.coherent r.idle (omega (arith, r.size)) in
        let cached = rw (w.sector) at (w.coherent.cached idx w.within w.valid) in
        rw (e, le→leb _ _ fits)
          (
            _,
            refl,
            (
              give_back store k idx _ w r.size w.sector w.valid (ground (arith, cached))
                  (omega (arith, w.in_use)) (λ d. cc) (λ s ne. ground arith),
              w.settles,
            ),
          )
