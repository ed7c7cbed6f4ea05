-- ===== src/Cache/Evict.antt =====
-- The clock algorithm ends, and gives up a cell that nobody uses.
use course_archive.Prelude.{
  ℕ, zero, suc, ◌+◌, ◌-◌, ◌%◌, ◌<◌, ◌≡◌, refl, ◌∙◌, inl, inr, true, false, some, ◌==◌, length,
  length-set, get_or-set, Returns, Bool-cases, arith,
}
use course_archive.Cache.{
  Cell, Cache, cell, blank, cache_size, pass_over, evictable, evict_loop, clock_fuel, evict,
}

-- All fields but `recently_accessed` agree.
pub record Kept (x y : Cell) : Type 0 where
  pub block_data : y.block_data ≡ x.block_data
  pub sector_idx : y.sector_idx ≡ x.sector_idx
  pub dirty : y.dirty ≡ x.dirty
  pub valid : y.valid ≡ x.valid
  pub num_using : y.num_using ≡ x.num_using

module _ {Disk : Type 0} where
  -- `c'` is `c` but for the clock's own fields.
  pub record Frame (c c' : Cache Disk) : Type 0 where
    pub kept : (j : ℕ) → Kept (cell c j) (cell c' j)
    pub length : length c'.cells ≡ length c.cells
    pub device : c'.fs_device ≡ c.fs_device

  Frame-trans : {c c' c'' : Cache Disk} → Frame c c' → Frame c' c'' → Frame c c''
  Frame-trans f g = record {
    kept = λ j.
        let x = f.kept j in
        let y = g.kept j in
        record {
          block_data = y.block_data ∙ x.block_data;
          sector_idx = y.sector_idx ∙ x.sector_idx;
          dirty = y.dirty ∙ x.dirty;
          valid = y.valid ∙ x.valid;
          num_using = y.num_using ∙ x.num_using;
        };
    length = g.length ∙ f.length;
    device = g.device ∙ f.device;
  }

  -- What `cache_evict` returns: `i` is the hand's position, and the cell there is given up.
  pub record Victim (c : Cache Disk) (i : ℕ) (c' : Cache Disk) : Type 0 where
    pub within : i < cache_size
    pub hand : c'.clock_idx ≡ i
    pub frame : Frame c c'
    pub free : evictable (cell c' i) ≡ true

  abbrev pub Evicts : Cache Disk → ℕ × Cache Disk → Type 0
  Evicts c (i, c') = Victim c i c'

  after : {c c' : Cache Disk} {r : ℕ × Cache Disk} → Frame c c' → Evicts c' r → Evicts c r
  after f v = record {
    within = v.within;
    hand = v.hand;
    frame = Frame-trans f v.frame;
    free = v.free;
  }

  module _ (c : Cache Disk) (i : ℕ) (h : i < length c.cells) where
    pass_over-Frame : Frame c (pass_over c i)
    pass_over-Frame = record {
      kept = λ j.
          ground (
            arith,
            get_or-set c.cells i j (record (cell c i) { recently_accessed = false }) blank h,
          );
      length =
          ground (arith, length-set c.cells i (record (cell c i) { recently_accessed = false }));
      device = ground arith;
    }

    pass_over-ne : (j : ℕ) → (j == i) ≡ false → cell (pass_over c i) j ≡ cell c j
    pass_over-ne j ne =
        ground
          (arith, get_or-set c.cells i j (record (cell c i) { recently_accessed = false }) blank h)

    pass_over-evictable : (cell c i).num_using ≡ 0 → evictable (cell (pass_over c i) i) ≡ true
    pass_over-evictable idle =
        ground
          (arith, get_or-set c.cells i i (record (cell c i) { recently_accessed = false }) blank h)

  Victim-here :
      (c : Cache Disk) (i : ℕ)
      → i < cache_size
      → evictable (cell c i) ≡ true
      → Victim c i (record c { clock_idx = i })
  Victim-here c i h e = record {
    within = h;
    hand = refl;
    frame = record {
      kept = λ j. record {
        block_data = refl;
        sector_idx = refl;
        dirty = refl;
        valid = refl;
        num_using = refl;
      };
      length = refl;
      device = refl;
    };
    free = e;
  }

  -- One round.
  evict_loop-true :
      (fuel i : ℕ) (c : Cache Disk)
      → evictable (cell c i) ≡ true
      → evict_loop (suc fuel) i c ≡ some (i, record c { clock_idx = i })
  unfolding evict_loop
  evict_loop-true fuel i c e = ground arith

  evict_loop-false :
      (fuel i : ℕ) (c : Cache Disk)
      → evictable (cell c i) ≡ false
      → evict_loop (suc fuel) i c ≡ evict_loop fuel ((i + 1) % cache_size) (pass_over c i)
  unfolding evict_loop
  evict_loop-false fuel i c e = ground arith

  go_on :
      (fuel i : ℕ) (c : Cache Disk)
      → i < length c.cells
      → evictable (cell c i) ≡ false
      → Returns (Evicts (pass_over c i)) (evict_loop fuel ((i + 1) % cache_size) (pass_over c i))
      → Returns (Evicts c) (evict_loop (suc fuel) i c)
  go_on fuel i c h miss (r, er, w) =
      (r, evict_loop-false fuel i c miss ∙ er, after (pass_over-Frame c i h) w)

  -- An evictable cell `d` steps ahead of the hand is found within `d + 1` rounds.
  near :
      (fuel d i : ℕ) (c : Cache Disk)
      → length c.cells ≡ cache_size
      → i < cache_size
      → d < fuel
      → evictable (cell c ((i + d) % cache_size)) ≡ true
      → Returns (Evicts c) (evict_loop fuel i c)
  near zero d i c len h f e = absurd (omega arith)
  near (suc fuel) d i c len h f e = elim (Bool-cases (evictable (cell c i))) [
    | inl hit ↦ (_, evict_loop-true fuel i c hit, Victim-here c i h hit)
    | inr miss ↦
        let apart : (((i + d) % cache_size) == i) ≡ false =
          elim (Bool-cases (((i + d) % cache_size) == i)) [
            | inl same ↦
                let s : (i + d) % cache_size ≡ i = ground arith in ground (arith, rw s at e)
            | inr differ ↦ differ
          ] in
        let ahead : ((i + 1) % cache_size + (d - 1)) % cache_size ≡ (i + d) % cache_size =
          ground arith in
        let frame = pass_over-Frame c i (omega arith) in
        go_on fuel i c (omega arith) miss (
          near fuel (d - 1) ((i + 1) % cache_size) (pass_over c i) (frame.length ∙ len)
            (omega arith) (ground arith) (rw (ahead, pass_over-ne c i (omega arith) _ apart) e))
  ]

  -- A cell `d` steps ahead that nobody uses loses its mark at the first visit, at the latest.
  far :
      (fuel d i : ℕ) (c : Cache Disk)
      → length c.cells ≡ cache_size
      → i < cache_size
      → d + cache_size < fuel
      → (cell c ((i + d) % cache_size)).num_using ≡ 0
      → Returns (Evicts c) (evict_loop fuel i c)
  far zero d i c len h f e = absurd (omega arith)
  far (suc fuel) d i c len h f e = elim (Bool-cases (evictable (cell c i))) [
    | inl hit ↦ (_, evict_loop-true fuel i c hit, Victim-here c i h hit)
    | inr miss ↦
        let frame = pass_over-Frame c i (omega arith) in
        let next : Returns (Evicts (pass_over c i))
            (evict_loop fuel ((i + 1) % cache_size) (pass_over c i)) =
          elim (Bool-cases (d == 0)) [
            | inl zero_d ↦
                let here : (i + d) % cache_size ≡ i = ground arith in
                let round : ((i + 1) % cache_size + 63) % cache_size ≡ i = omega arith in
                near fuel 63 ((i + 1) % cache_size) (pass_over c i) (frame.length ∙ len)
                  (omega arith) (omega arith)
                  (rw round (pass_over-evictable c i (omega arith) (rw here at e)))
            | inr more ↦
                let ahead : ((i + 1) % cache_size + (d - 1)) % cache_size ≡ (i + d) % cache_size =
                  ground arith in
                far fuel (d - 1) ((i + 1) % cache_size) (pass_over c i) (frame.length ∙ len)
                  (omega arith) (ground arith) (rw ahead ((frame.kept _).num_using ∙ e))
          ] in
        go_on fuel i c (omega arith) miss next
  ]

  -- If some cell is not in use, the clock stops, at a cell that is free; apart from the hand and
  -- the marks of recent use nothing changes.
  pub evict-Evicts :
      (c : Cache Disk) (k : ℕ)
      → length c.cells ≡ cache_size
      → c.clock_idx < cache_size
      → k < cache_size
      → (cell c k).num_using ≡ 0
      → Returns (Evicts c) (evict c)
  unfolding evict
  evict-Evicts c k len h hk idle =
      let d = (k + cache_size - c.clock_idx) % cache_size in
      let at_k : (c.clock_idx + d) % cache_size ≡ k = omega arith in
      far clock_fuel d c.clock_idx c len h (omega arith) (rw at_k idle)
