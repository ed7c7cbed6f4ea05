-- ===== src/Inode/Grow.antt =====
-- The part of inode.c that gives sectors to a file, and takes them back. What `free_map_allocate`
-- says is not looked at: where it fails, the number keeps its old value. A block on the stack that
-- is not read from the device first has whatever stood there: `garbage`.
use course_archive.Prelude.{
  ℕ, zero, suc, ◌+◌, ◌-◌, ◌*◌, ◌/◌, Bool, true, false, not, ◌&&◌, Option, none, some, List, ◌==◌,
  ltb, leb, if◌then◌else◌, get_or, set, replicate, ◌>>=◌,
}
use course_archive.Block.{Sector, BlockOps, block_sector_size, block_write}
use course_archive.Cache.{Cache}
use course_archive.FreeMap
use course_archive.FreeMap.{FreeMap}
use course_archive.Inode.{
  Inode, direct_blocks, double_indirect_index, indirect_block_ptrs, indirect_blocks_count,
  bytes_to_sectors, get_word, device_read,
}
use course_archive.Inode.Words.{put_word}

-- The cache with its device, and the free map.
pub record Fs (Disk : Type 0) (File : Type 0) : Type 0 where
  pub cache : Cache Disk
  pub map : FreeMap File

abbrev pub zeros : Sector
zeros = replicate 512 0

module _ {Disk : Type 0} {File : Type 0} (ops : BlockOps Disk)
    (file_write_at : File → List ℕ → ℕ → ℕ → ℕ × File) (garbage : Sector) where
  -- block_write on `fs_device`
  abbrev pub device_write : Fs Disk File → ℕ → Sector → Option (Fs Disk File)
  device_write fs sector bytes = do
    device ← block_write ops fs.cache.fs_device sector bytes
    some (record fs { cache = record (fs.cache) { fs_device = device } })

  abbrev pub device_read_fs : Fs Disk File → ℕ → Option (Sector × Fs Disk File)
  device_read_fs fs sector = do
    (bytes, c) ← device_read ops fs.cache sector
    some (bytes, record fs { cache = c })

  -- `free_map_allocate (1, p)`, for a `*p` that is `old`; the new `*p`.
  abbrev pub allocate_one : Fs Disk File → ℕ → Option (ℕ × Fs Disk File)
  allocate_one fs old = do
    (sector, map) ← FreeMap.allocate file_write_at fs.map 1
    some (elim sector [ none ↦ old | some s ↦ s ], record fs { map = map })

  -- The loop of `map_alloc`, for the `left` direct numbers from the index on.
  unfoldable pub map_alloc_loop : ℕ → Fs Disk File → Inode → ℕ → Option (Fs Disk File × Inode × ℕ)
  map_alloc_loop zero fs x new_sectors = some (fs, x, new_sectors)
  map_alloc_loop (suc left) fs x new_sectors = do
    (sector, fs) ← allocate_one fs (get_or x.ptrs x.direct_blk_idx 0)
    fs ← device_write fs sector zeros
    let x' = record x {
      ptrs = set x.ptrs x.direct_blk_idx sector;
      direct_blk_idx = x.direct_blk_idx + 1;
    }
    let rest = map_alloc_loop left fs x' (new_sectors - 1)
    if new_sectors - 1 == 0 then some (fs, x', 0) else rest

  abbrev pub map_alloc : Fs Disk File → Inode → ℕ → Option (Fs Disk File × Inode × ℕ)
  map_alloc fs x new_sectors = map_alloc_loop (direct_blocks - x.direct_blk_idx) fs x new_sectors

  -- The loops that fill a block of numbers, for the `left` ones from `idx` on.
  unfoldable pub fill_loop :
      ℕ → Fs Disk File → Sector → ℕ → ℕ → Option (Fs Disk File × Sector × ℕ × ℕ)
  fill_loop zero fs block idx new_sectors = some (fs, block, idx, new_sectors)
  fill_loop (suc left) fs block idx new_sectors = do
    (sector, fs) ← allocate_one fs (get_word block idx)
    fs ← device_write fs sector zeros
    let block' = put_word block idx sector
    let rest = fill_loop left fs block' (idx + 1) (new_sectors - 1)
    if new_sectors - 1 == 0 then some (fs, block', idx + 1, 0) else rest

  -- The block of numbers at `ptrs[direct_blk_idx]`: a new one, or the one that is being filled.
  abbrev pub current_block : Bool → Fs Disk File → Inode → Option (Sector × Fs Disk File × Inode)
  current_block fresh fs x = do
    let p = get_or x.ptrs x.direct_blk_idx 0
    let new = (do
      (sector, fs) ← allocate_one fs p
      some (garbage, fs, record x { ptrs = set x.ptrs x.direct_blk_idx sector }))
    let old = (do (block, fs) ← device_read_fs fs p; some (block, fs, x))
    if fresh then new else old

  unfoldable pub grow_indirect_block : Fs Disk File → Inode → ℕ → Option (ℕ × Fs Disk File × Inode)
  grow_indirect_block fs x new_sectors = do
    (block, fs, x) ← current_block (x.indirect_blk_idx == 0) fs x
    (fs, block, idx, new_sectors) ←
        fill_loop (indirect_block_ptrs - x.indirect_blk_idx) fs block x.indirect_blk_idx new_sectors
    fs ← device_write fs (get_or x.ptrs x.direct_blk_idx 0) block
    some (
      new_sectors,
      fs,
      (if idx == indirect_block_ptrs
          then record x { indirect_blk_idx = 0; direct_blk_idx = x.direct_blk_idx + 1 }
          else record x { indirect_blk_idx = idx }),
    )

  -- `map_alloc_indirect` takes the block by value, so that what it puts there is lost.
  abbrev pub map_alloc_indirect : Fs Disk File → Sector → ℕ → ℕ → Option (Fs Disk File × ℕ × ℕ)
  map_alloc_indirect fs block index new_sectors = do
    (fs, _, index, new_sectors) ← fill_loop (indirect_block_ptrs - index) fs block index new_sectors
    some (fs, index, new_sectors)

  -- The results are the sectors that are still wanted, the inode and the outer block.
  unfoldable pub grow_double_indirect_block_lvl2 :
      Fs Disk File → Inode → ℕ → Sector → Option (ℕ × Fs Disk File × Inode × Sector)
  grow_double_indirect_block_lvl2 fs x new_sectors outer_block = do
    let p = get_word outer_block x.indirect_blk_idx
    let new = (do
      (sector, fs) ← allocate_one fs p
      some (garbage, fs, put_word outer_block x.indirect_blk_idx sector))
    let old = (do (block, fs) ← device_read_fs fs p; some (block, fs, outer_block))
    (inner_block, fs, outer_block) ← if x.double_indirect_blk_idx == 0 then new else old
    (fs, index, new_sectors) ←
        map_alloc_indirect fs inner_block x.double_indirect_blk_idx new_sectors
    fs ← device_write fs (get_word outer_block x.indirect_blk_idx) inner_block
    some (
      new_sectors,
      fs,
      (if index == indirect_block_ptrs
          then record x { double_indirect_blk_idx = 0; indirect_blk_idx = x.indirect_blk_idx + 1 }
          else record x { double_indirect_blk_idx = index }),
      outer_block,
    )

  -- `while (inode->indirect_blk_idx < INDIRECT_BLOCK_PTRS)`: each round fills a block or ends.
  unfoldable pub double_loop :
      ℕ → Fs Disk File → Inode → ℕ → Sector → Option (ℕ × Fs Disk File × Inode × Sector)
  double_loop zero fs x new_sectors block =
      if ltb x.indirect_blk_idx indirect_block_ptrs then none else some (new_sectors, fs, x, block)
  double_loop (suc fuel) fs x new_sectors block =
      let round = (do
        (new_sectors, fs, x, block) ← grow_double_indirect_block_lvl2 fs x new_sectors block
        let rest = double_loop fuel fs x new_sectors block
        if new_sectors == 0 then some (new_sectors, fs, x, block) else rest) in
      if ltb x.indirect_blk_idx indirect_block_ptrs then round else some (new_sectors, fs, x, block)

  unfoldable pub grow_double_indirect_block :
      Fs Disk File → Inode → ℕ → Option (ℕ × Fs Disk File × Inode)
  grow_double_indirect_block fs x new_sectors = do
    (block, fs, x) ←
        current_block (x.double_indirect_blk_idx == 0 && (x.indirect_blk_idx == 0)) fs x
    (new_sectors, fs, x, block) ← double_loop indirect_block_ptrs fs x new_sectors block
    fs ← device_write fs (get_or x.ptrs x.direct_blk_idx 0) block
    some (new_sectors, fs, x)

  -- `while (inode->direct_blk_idx < DOUBLE_INDIRECT_INDEX)`, which may end the function: true then.
  unfoldable pub indirect_loop :
      ℕ → Fs Disk File → Inode → ℕ → Option (Bool × ℕ × Fs Disk File × Inode)
  indirect_loop zero fs x new_sectors =
      if ltb x.direct_blk_idx double_indirect_index then none else some (false, new_sectors, fs, x)
  indirect_loop (suc fuel) fs x new_sectors =
      let round = (do
        (new_sectors, fs, x) ← grow_indirect_block fs x new_sectors
        let rest = indirect_loop fuel fs x new_sectors
        if new_sectors == 0 then some (true, 0, fs, x) else rest) in
      if ltb x.direct_blk_idx double_indirect_index then round else some (false, new_sectors, fs, x)

  -- The part of `inode_grow` after the direct blocks.
  abbrev pub grow_further : Fs Disk File → Inode → ℕ → ℕ → Option (ℕ × Fs Disk File × Inode)
  grow_further fs x new_length new_sectors = do
    (done, new_sectors, fs, x) ← indirect_loop double_indirect_index fs x new_sectors
    let last = (do
      (new_sectors, fs, x) ←
          (if x.direct_blk_idx == double_indirect_index
            then grow_double_indirect_block fs x new_sectors
            else some (new_sectors, fs, x))
      some (new_length - new_sectors * block_sector_size, fs, x))
    if done then some (new_length, fs, x) else last

  unfoldable pub grow : Fs Disk File → Inode → ℕ → Option (ℕ × Fs Disk File × Inode)
  grow fs x new_length = do
    let new_sectors = bytes_to_sectors new_length - bytes_to_sectors x.length
    let more = (do
      (fs, x, left) ← map_alloc fs x new_sectors
      if left == 0 then some (new_length, fs, x) else grow_further fs x new_length left)
    if new_sectors == 0 then some (new_length, fs, x) else more

  -- Giving sectors back.
  abbrev pub release_one : Fs Disk File → ℕ → Option (Fs Disk File)
  release_one fs sector = do
    map ← FreeMap.release file_write_at fs.map sector 1
    some (record fs { map = map })

  -- `while (i < data_ptrs) free_map_release (block.ptrs[i], 1);`
  unfoldable pub release_loop : ℕ → Fs Disk File → Sector → ℕ → Option (Fs Disk File)
  release_loop zero fs block i = some fs
  release_loop (suc left) fs block i = do
    fs ← release_one fs (get_word block i)
    release_loop left fs block (i + 1)

  unfoldable pub deallocate_indirect_block : Fs Disk File → ℕ → ℕ → Option (Fs Disk File)
  deallocate_indirect_block fs ptr data_ptrs = do
    (block, fs) ← device_read_fs fs ptr
    fs ← release_loop data_ptrs fs block 0
    release_one fs ptr

  abbrev pub at_most_block : ℕ → ℕ
  at_most_block data_ptrs =
      if ltb data_ptrs indirect_block_ptrs then data_ptrs else indirect_block_ptrs

  unfoldable pub deallocate_blocks : ℕ → Fs Disk File → Sector → ℕ → ℕ → Option (Fs Disk File)
  deallocate_blocks zero fs block i data_ptrs = some fs
  deallocate_blocks (suc left) fs block i data_ptrs = do
    fs ← deallocate_indirect_block fs (get_word block i) (at_most_block data_ptrs)
    deallocate_blocks left fs block (i + 1) (data_ptrs - at_most_block data_ptrs)

  unfoldable pub deallocate_double_indirect_block : Fs Disk File → ℕ → ℕ → ℕ → Option (Fs Disk File)
  deallocate_double_indirect_block fs ptr indirect_ptrs data_ptrs = do
    (block, fs) ← device_read_fs fs ptr
    fs ← deallocate_blocks indirect_ptrs fs block 0 data_ptrs
    release_one fs ptr

  -- The loops of `inode_deallocate`, with the index and the sectors that are left.
  unfoldable pub deallocate_direct :
      ℕ → Fs Disk File → Inode → ℕ → ℕ → Option (ℕ × ℕ × Fs Disk File)
  deallocate_direct zero fs x idx data_sectors = some (idx, data_sectors, fs)
  deallocate_direct (suc left) fs x idx data_sectors =
      let round = (do
        fs ← release_one fs (get_or x.ptrs idx 0)
        deallocate_direct left fs x (idx + 1) (data_sectors - 1)) in
      if data_sectors == 0 then some (idx, data_sectors, fs) else round

  unfoldable pub deallocate_indirect :
      ℕ → Fs Disk File → Inode → ℕ → ℕ → ℕ → Option (ℕ × ℕ × ℕ × Fs Disk File)
  deallocate_indirect zero fs x idx indirect_sectors data_sectors =
      some (idx, indirect_sectors, data_sectors, fs)
  deallocate_indirect (suc left) fs x idx indirect_sectors data_sectors =
      let round = (do
        fs ← deallocate_indirect_block fs (get_or x.ptrs idx 0) (at_most_block data_sectors)
        deallocate_indirect left fs x (idx + 1) (indirect_sectors - 1)
            (data_sectors - at_most_block data_sectors)) in
      if indirect_sectors == 0 then some (idx, indirect_sectors, data_sectors, fs) else round

  unfoldable pub deallocate : Fs Disk File → Inode → Option (Fs Disk File)
  deallocate fs x = do
    let direct_bytes = block_sector_size * direct_blocks
    let span = block_sector_size * indirect_block_ptrs
    let indirect_sectors =
        if leb x.length direct_bytes then 0 else (x.length - direct_bytes + span - 1) / span
    let has_double =
        not (leb x.length (block_sector_size * (direct_blocks + indirect_blocks_count)))
    (idx, data_sectors, fs) ← deallocate_direct direct_blocks fs x 0 (bytes_to_sectors x.length)
    (idx, indirect_sectors, data_sectors, fs) ←
        deallocate_indirect (double_indirect_index - idx) fs x idx indirect_sectors data_sectors
    if has_double
        then deallocate_double_indirect_block fs (get_or x.ptrs idx 0) indirect_sectors data_sectors
        else some fs
