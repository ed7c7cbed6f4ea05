-- ===== src/Cache.antt =====
-- PintOS/src/filesys/buffer-cache.c: 64 sectors of the file system device in memory, replaced by the
-- clock algorithm and written back late. Every operation runs to its end before the next begins, so
-- the cells' locks, which are taken and given back inside each, are always free.
pub mod Evict
pub mod Coherent
pub mod Fetch
pub mod Replace
pub mod Refine
pub mod Flush
pub mod Run
mod Tests
use course_archive.Prelude.{
  ℕ, zero, suc, ◌+◌, ◌-◌, ◌%◌, Bool, true, false, not, ◌&&◌, ◌||◌, Option, none, some, List, ◌++◌,
  ◌==◌, leb, if◌then◌else◌, length, get_or, set, take, drop, replicate, ◌>>=◌, ◌>>◌, assert,
}
use course_archive.Block.{Sector, BlockOps, Block, block_sector_size, block_read, block_write}

abbrev pub cache_size : ℕ
cache_size = 64

-- `num_using` counts the calls that use the cell: it is lowered only by a call that raised it.
pub record Cell : Type 0 where
  pub block_data : Sector
  pub sector_idx : ℕ
  pub dirty : Bool
  pub recently_accessed : Bool
  pub valid : Bool
  pub num_using : ℕ

-- The globals `cache`, `clock_idx`, `cache_hit`, `cache_miss` and `fs_device`.
pub record Cache (Disk : Type 0) : Type 0 where
  pub cells : List Cell
  pub clock_idx : ℕ
  pub hit : ℕ
  pub miss : ℕ
  pub fs_device : Block Disk

-- A static variable starts as zeros.
abbrev pub blank : Cell
blank = record {
  block_data = replicate 512 0;
  sector_idx = 0;
  dirty = false;
  recently_accessed = false;
  valid = false;
  num_using = 0;
}

-- A cell that the clock gives up.
abbrev pub evictable : Cell → Bool
evictable x = not x.valid || (x.num_using == 0 && not x.recently_accessed)

-- Two rounds and one step suffice: `Evict`.
abbrev pub clock_fuel : ℕ
clock_fuel = 129

-- `new` written over `bytes` from `offset` on.
abbrev pub splice : Sector → ℕ → List ℕ → Sector
splice bytes offset new = take offset bytes ++ (new ++ drop (offset + length new) bytes)

module _ {Disk : Type 0} where
  abbrev pub cell : Cache Disk → ℕ → Cell
  cell c i = get_or c.cells i blank

  abbrev pub set_cell : Cache Disk → ℕ → Cell → Cache Disk
  set_cell c i x = record c { cells = set c.cells i x }

  pub init_loop : ℕ → ℕ → Cache Disk → Cache Disk
  init_loop zero i c = c
  init_loop (suc n) i c = init_loop n (i + 1) (
      set_cell c i (record (cell c i) {
        valid = false;
        num_using = 0;
        sector_idx = 0;
        dirty = false;
        recently_accessed = false;
      }))

  unfoldable pub init : Cache Disk → Cache Disk
  init c = init_loop cache_size 0 (record c { clock_idx = 0 })

  unfoldable pub reset_hit_miss : Cache Disk → Cache Disk
  reset_hit_miss c = record c { hit = 0; miss = 0 }

  -- `none` for -1
  pub search_loop : ℕ → ℕ → Cache Disk → ℕ → Option ℕ × Cache Disk
  search_loop zero i c sector = (none, record c { miss = c.miss + 1 })
  search_loop (suc n) i c sector =
      let rest = search_loop n (i + 1) c sector in
      if (cell c i).sector_idx == sector && (cell c i).valid
      then (some i, record c { hit = c.hit + 1 })
      else rest

  unfoldable pub search : Cache Disk → ℕ → Option ℕ × Cache Disk
  search c sector = search_loop cache_size 0 c sector

  -- One round of the clock at `i` that finds the cell in use or recently accessed.
  abbrev pub pass_over : Cache Disk → ℕ → Cache Disk
  pass_over c i =
      let c' = record c { clock_idx = i } in
      if (cell c i).num_using == 0
      then set_cell c' i (record (cell c i) { recently_accessed = false })
      else c'

  -- `for (i = clock_idx; true; i = (i + 1) % CACHE_SIZE)` on fuel; `none` when that runs out.
  pub evict_loop : ℕ → ℕ → Cache Disk → Option (ℕ × Cache Disk)
  evict_loop zero i c = none
  evict_loop (suc fuel) i c =
      let x = cell c i in
      let next = evict_loop fuel ((i + 1) % cache_size) (pass_over c i) in
      let here : Option (ℕ × Cache Disk) = some (i, record c { clock_idx = i }) in
      if not x.valid
      then here
      else (if x.num_using == 0 then (if x.recently_accessed then next else here) else next)

  unfoldable pub evict : Cache Disk → Option (ℕ × Cache Disk)
  evict c = evict_loop clock_fuel c.clock_idx c

  abbrev pub reuse : ℕ → Cache Disk → Cache Disk
  reuse idx c =
      set_cell c idx
        (record (cell c idx) { recently_accessed = true; num_using = (cell c idx).num_using + 1 })

  module _ (ops : BlockOps Disk) where
    -- The body of `cache_flush` at the cell `i`.
    pub flush_cell : ℕ → Cache Disk → Option (Cache Disk)
    flush_cell i c =
        let x = cell c i in
        if x.valid && x.dirty
        then (do
          device ← block_write ops c.fs_device x.sector_idx x.block_data
          some (
              set_cell (record c { fs_device = device }) i
                (record x { dirty = false; valid = false })))
        else some c

    pub flush_loop : ℕ → ℕ → Cache Disk → Option (Cache Disk)
    flush_loop zero i c = some c
    flush_loop (suc n) i c = do c' ← flush_cell i c; flush_loop n (i + 1) c'

    unfoldable pub flush : Cache Disk → Option (Cache Disk)
    flush c = flush_loop cache_size 0 c

    -- What `cache_fetch` does with the cell that the clock gave up.
    pub write_back : ℕ → Cache Disk → Option (Cache Disk)
    write_back idx c =
        let x = cell c idx in
        if x.dirty
        then (do
          device ← block_write ops c.fs_device x.sector_idx x.block_data
          some (record c { fs_device = device }))
        else some c

    pub fill : ℕ → ℕ → Cache Disk → Option (Cache Disk)
    fill idx sector c = do
      (bytes, device) ← block_read ops c.fs_device sector
      some (
          set_cell (record c { fs_device = device }) idx
            (record {
              block_data = bytes;
              sector_idx = sector;
              dirty = false;
              recently_accessed = true;
              valid = true;
              num_using = 1;
            }))

    pub bring_in : ℕ → Cache Disk → Option (ℕ × Cache Disk)
    bring_in sector c = do
      (idx, c) ← evict c
      c ← write_back idx c
      c ← fill idx sector c
      some (idx, c)

    unfoldable pub fetch : Cache Disk → ℕ → Option (ℕ × Cache Disk)
    fetch c sector =
        let (found, c') = search c sector in
        elim found [ none ↦ bring_in sector c' | some idx ↦ some (idx, reuse idx c') ]

    -- `memcpy` past the end of the sector is undefined. The first result is what is copied out.
    unfoldable pub read : Cache Disk → ℕ → ℕ → ℕ → Option (List ℕ × Cache Disk)
    read c sector offset size = do
      (idx, c) ← fetch c sector
      let x = cell c idx
      assert (leb (offset + size) block_sector_size)
      some (
        take size (drop offset x.block_data),
        set_cell c idx (record x { num_using = x.num_using - 1; recently_accessed = true }),
      )

    unfoldable pub write : Cache Disk → ℕ → ℕ → List ℕ → Option (Cache Disk)
    write c sector offset buffer = do
      (idx, c) ← fetch c sector
      let x = cell c idx
      assert (leb (offset + length buffer) block_sector_size)
      some (
          set_cell c idx (record x {
            block_data = splice x.block_data offset buffer;
            dirty = true;
            num_using = x.num_using - 1;
            recently_accessed = true;
          }))
