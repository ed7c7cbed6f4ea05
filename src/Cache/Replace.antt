-- ===== src/Cache/Replace.antt =====
-- A victim is written back and its cell filled; `cache_fetch` as a whole.
use course_archive.Prelude.{
  ℕ, ◌+◌, ◌%◌, ◌^◌, ◌<◌, ◌≡◌, refl, sym, ◌∙◌, ap, ◌≢◌, inl, inr, true, false, Option, none, some,
  ◌==◌, length, Returns, Bool-cases, lt→ltb, arith, ◌>>=◌,
}
use course_archive.Block.{Sector, BlockOps, Block, IsStore}
use course_archive.Cache.{
  Cell, Cache, cell, set_cell, cache_size, search, write_back, fill, bring_in, reuse, fetch,
}
use course_archive.Cache.Evict.{evict-Evicts}
use course_archive.Cache.Coherent.{
  same_or_not, Coherent, CoherentBut, leave_out, stored_of_clean, put_cell, cell-set_self,
  cell-set_ne,
}
use course_archive.Cache.Fetch.{
  SameBlocks, Found, search-Found, IsIdle, SameBlocks-Coherent, Frame-Coherent,
}

module _ {Disk : Type 0} (ops : BlockOps Disk) (store : IsStore ops) where
  -- A sector that the device itself had up to date, it has so still.
  abbrev pub Settles : Cache Disk → (ℕ → Sector) → Cache Disk → Type 0
  Settles c f c' = (s : ℕ) → ops.read c.fs_device.aux s ≡ f s → ops.read c'.fs_device.aux s ≡ f s

  -- The victim's sector is on the device, and the sector `k`, in no cell, is there too.
  record Clean (idx k : ℕ) (c : Cache Disk) (f : ℕ → Sector) (c' : Cache Disk) : Type 0 where
    cells : c'.cells ≡ c.cells
    size : c'.fs_device.size ≡ c.fs_device.size
    coherent : CoherentBut ops idx k c' f
    synced : ops.read c'.fs_device.aux k ≡ f k
    settles : Settles c f c'

  module _ {c : Cache Disk} {f : ℕ → Sector} (h : Coherent ops c f) (idx k : ℕ)
      (lt : idx < cache_size) (absent : Found c k none) where
    -- Whatever device has all sectors but those of the other dirty cells.
    Clean-device :
        (d : Block Disk)
        → d.size ≡ c.fs_device.size
        → d.type ≡ c.fs_device.type
        → ((s : ℕ)
            → ((i : ℕ)
                → i < cache_size
                → i ≢ idx
                → (cell c i).dirty ≡ true
                → (cell c i).sector_idx ≢ s)
            → ops.read d.aux s ≡ f s)
        → Settles c f (record c { fs_device = d })
        → Clean idx k c f (record c { fs_device = d })
    Clean-device d size type stored settles = record {
      cells = refl;
      size = size;
      coherent = record {
        count = h.count;
        hand = h.hand;
        own = ground (arith, h.own);
        unique = λ i j hi hj ni nj. h.unique i j hi hj;
        other = λ i hi ni. absent i hi;
        cached = λ i hi ni. h.cached i hi;
        dirty_valid = λ i hi ni. h.dirty_valid i hi;
        present = λ i hi ni v. rw size (h.present i hi v);
        stored = λ s ne. stored s;
      };
      synced = stored k (λ i hi ni d. absent i hi (h.dirty_valid i hi d));
      settles = settles;
    }

    write_back-Clean : Returns (Clean idx k c f) (write_back ops idx c)
    unfolding write_back
    write_back-Clean = elim (Bool-cases (cell c idx).dirty) [
      | inl d ↦
          let valid = h.dirty_valid idx lt d in
          let x = cell c idx in
          rw (d, lt→ltb _ _ (h.present idx lt valid), h.own)
            (
              _,
              refl,
              Clean-device _ refl refl
                  (λ s clean. store.read-write _ _ s _ ∙ elim (Bool-cases (s == x.sector_idx)) [
                    | inl e ↦ ground (arith, h.cached idx lt valid)
                    | inr n ↦ rw n (
                        h.stored s λ i hi di e. elim (same_or_not i idx) [
                          | inl same ↦ ground (arith, ap (λ j. (cell c j).sector_idx) same)
                          | inr differ ↦ clean i hi differ di e
                        ])
                  ])
                  (λ s kept. store.read-write _ _ s _ ∙ elim (Bool-cases (s == x.sector_idx)) [
                    | inl e ↦ ground (arith, h.cached idx lt valid)
                    | inr n ↦ rw n kept
                  ]),
            )
      | inr d ↦ rw d (
        c,
        refl,
        Clean-device c.fs_device refl refl
            (λ s clean. h.stored s λ i hi di e. elim (same_or_not i idx) [
              | inl same ↦ cc (ap (λ j. (cell c j).dirty) same)
              | inr differ ↦ clean i hi differ di e
            ])
            (λ s kept. kept),
      )
    ]

  -- The cell that `cache_fetch` returns: it has the sector, and it alone is in use.
  pub record Fetched (c : Cache Disk) (f : ℕ → Sector) (k idx : ℕ) (c' : Cache Disk) : Type 0 where
    pub within : idx < cache_size
    pub coherent : Coherent ops c' f
    pub valid : (cell c' idx).valid ≡ true
    pub sector : (cell c' idx).sector_idx ≡ k
    pub in_use : (cell c' idx).num_using ≡ 1
    pub idle : (i : ℕ) → i < cache_size → i ≢ idx → (cell c' i).num_using ≡ 0
    pub size : c'.fs_device.size ≡ c.fs_device.size
    pub settles : Settles c f c'

  abbrev pub Fetches : Cache Disk → (ℕ → Sector) → ℕ → ℕ × Cache Disk → Type 0
  Fetches c f k (idx, c') = Fetched c f k idx c'

  -- The cell that `cache_fetch` fills.
  abbrev fresh : Cache Disk → ℕ → Cell
  fresh c k = record {
    block_data = ops.read c.fs_device.aux k;
    sector_idx = k;
    dirty = false;
    recently_accessed = true;
    valid = true;
    num_using = 1;
  }

  fill-Fetched :
      {c c' : Cache Disk} {f : ℕ → Sector} (idx k : ℕ)
      → idx < cache_size
      → IsIdle c
      → k < c.fs_device.size
      → Clean idx k c f c'
      → Returns (Fetches c f k) (do c'' ← fill ops idx k c'; some (idx, c''))
  unfolding fill
  fill-Fetched {c} {c'} {f} idx k lt idle inside clean = rw (lt→ltb k c'.fs_device.size fits) (
    _,
    refl,
    record {
      within = lt;
      coherent =
          put_cell ops held lt (fresh c' k) (λ _. (refl, clean.synced, fits)) (λ _. refl)
            (λ _. clean.synced);
      valid = rw self refl;
      sector = rw self refl;
      in_use = rw self refl;
      idle = λ i hi ne.
          rw (cell-set_ne c1 idx i (fresh c' k) room ne) (ground (arith, idle i hi, clean.cells));
      size = clean.size;
      settles = clean.settles;
    },
  )
    where
      fits : k < c'.fs_device.size
      fits = omega (arith, clean.size)

      c1 : Cache Disk
      c1 = record c' {
        fs_device = record (c'.fs_device) { read_cnt = (c'.fs_device.read_cnt + 1) % 2 ^ 64 };
      }

      held : CoherentBut ops idx k c1 f
      held =
          let h = clean.coherent in
          record {
            count = h.count;
            hand = h.hand;
            own = h.own;
            unique = h.unique;
            other = h.other;
            cached = h.cached;
            dirty_valid = h.dirty_valid;
            present = h.present;
            stored = h.stored;
          }

      room : idx < length c1.cells
      room = omega (arith, held.count)

      self : cell (set_cell c1 idx (fresh c' k)) idx ≡ fresh c' k
      self = cell-set_self c1 idx (fresh c' k) room

  bring_in-Fetched :
      {c : Cache Disk} {f : ℕ → Sector} (k : ℕ)
      → Coherent ops c f
      → IsIdle c
      → k < c.fs_device.size
      → Found c k none
      → Returns (Fetches c f k) (bring_in ops k c)
  unfolding bring_in
  bring_in-Fetched {c} {f} k h idle inside absent =
      let ((idx, c1), e1, v) =
        evict-Evicts c 0 h.count h.hand (omega arith) (idle 0 (omega arith)) in
      let h1 = Frame-Coherent ops v.frame (omega (arith, v.hand, v.within)) h in
      let absent1 : Found c1 k none = λ i hi vi e.
        absent i hi (sym (v.frame.kept i).valid ∙ vi) (sym (v.frame.kept i).sector_idx ∙ e) in
      let idle1 : IsIdle c1 = λ i hi. (v.frame.kept i).num_using ∙ idle i hi in
      let (c2, e2, clean) = write_back-Clean {c = c1} {f = f} h1 idx k v.within absent1 in
      let (r, e3, w) =
        fill-Fetched {c = c1} {c' = c2} {f = f} idx k v.within idle1
          (ground (arith, v.frame.device, inside)) clean in
      (
        r,
        rw (e1, e2) e3,
        record {
          within = w.within;
          coherent = w.coherent;
          valid = w.valid;
          sector = w.sector;
          in_use = w.in_use;
          idle = w.idle;
          size = w.size ∙ ap (λ (d : Block Disk). d.size) v.frame.device;
          settles = λ t kept.
              w.settles t (ap (λ (d : Block Disk). ops.read d.aux t) v.frame.device ∙ kept);
        },
      )

  -- With no cell in use, and a sector of the device, `cache_fetch` returns a cell that holds the
  -- sector and is marked as in use; what cache and device hold together stays the same.
  pub fetch-Fetched :
      {c : Cache Disk} {f : ℕ → Sector} (k : ℕ)
      → Coherent ops c f
      → IsIdle c
      → k < c.fs_device.size
      → Returns (Fetches c f k) (fetch ops c k)
  unfolding fetch
  fetch-Fetched {c} {f} k h idle inside =
      let found = search-Found c k in branch (search c k).0 (search c k).1 found.0 found.1
    where
      branch :
          (o : Option ℕ) (c1 : Cache Disk)
          → Found c k o
          → SameBlocks c c1
          → Returns
              (Fetches c f k)
              (elim o [ none ↦ bring_in ops k c1 | some idx ↦ some (idx, reuse idx c1) ])
      branch none c1 absent s =
          let fits : k < c1.fs_device.size = ground (arith, s.fs_device) in
          let idle1 : IsIdle c1 = rw (s.cells) idle in
          let absent1 : Found c1 k none = rw (s.cells) absent in
          let (r, e, w) =
            bring_in-Fetched {c = c1} {f = f} k (SameBlocks-Coherent ops s h) idle1 fits absent1 in
          (
            r,
            e,
            record {
              within = w.within;
              coherent = w.coherent;
              valid = w.valid;
              sector = w.sector;
              in_use = w.in_use;
              idle = w.idle;
              size = w.size ∙ ap (λ (d : Block Disk). d.size) s.fs_device;
              settles = λ t kept.
                  w.settles t (ap (λ (d : Block Disk). ops.read d.aux t) s.fs_device ∙ kept);
            },
          )
      branch (some idx) c1 (lt, valid, sector) s =
          let h1 = SameBlocks-Coherent ops s h in
          let same : cell c1 idx ≡ cell c idx = rw (s.cells) refl in
          let valid1 : (cell c1 idx).valid ≡ true = rw same valid in
          let sector1 : (cell c1 idx).sector_idx ≡ k = rw same sector in
          let x = record (cell c1 idx) {
            recently_accessed = true;
            num_using = (cell c1 idx).num_using + 1;
          } in
          let self = cell-set_self c1 idx x (omega (arith, h1.count)) in
          (
            _,
            refl,
            record {
              within = lt;
              coherent =
                  put_cell ops (leave_out ops idx h1 lt valid1) lt x
                    (λ v. (refl, h1.cached idx lt v, h1.present idx lt v)) (h1.dirty_valid idx lt)
                    (stored_of_clean ops idx h1 lt valid1);
              valid = rw self valid1;
              sector = rw self sector1;
              in_use = rw self (ground (arith, idle idx lt, same));
              idle = λ i hi ne.
                  rw (cell-set_ne c1 idx i x (omega (arith, h1.count)) ne)
                    (rw (s.cells) (idle i hi));
              size = ap (λ (d : Block Disk). d.size) s.fs_device;
              settles = λ t kept. ap (λ (d : Block Disk). ops.read d.aux t) s.fs_device ∙ kept;
            },
          )
