-- ===== src/Inode.antt =====
-- PintOS/src/filesys/inode.c: files as indexed sectors. A structure on disk is the 512 bytes of its
-- sector, four bytes to a number, the lowest first. Offsets and lengths are not negative, and an
-- inode that is not open is no inode: the list of open inodes has the open ones only.

pub mod Sectors
pub mod Words
pub mod Read
pub mod Write
pub mod WriteLoop
pub mod Grow
pub mod Table
pub mod RoundTrip
pub mod Reopen
pub mod Sample
mod Tests
use course_archive.Prelude.{
  ℕ, zero, suc, ◌+◌, ◌-◌, ◌*◌, ◌/◌, ◌%◌, ◌^◌, Bool, true, false, not, ◌&&◌, Option, none, some,
  List, [], ◌∷◌, ◌++◌, ◌==◌, ltb, leb, if◌then◌else◌, get_or, set, length, take, drop, replicate,
  ◌>>=◌, ◌>>◌, assert,
}
use course_archive.Block.{Sector, BlockOps, Block, block_sector_size, block_read, block_write}
use course_archive.Cache
use course_archive.Cache.{Cache}

abbrev pub direct_blocks : ℕ
direct_blocks = 10

abbrev pub double_indirect_index : ℕ
double_indirect_index = 20

abbrev pub indirect_block_ptrs : ℕ
indirect_block_ptrs = 128

abbrev pub inode_block_ptrs : ℕ
inode_block_ptrs = 21

abbrev pub indirect_blocks_count : ℕ
indirect_blocks_count = 1280

-- DIV_ROUND_UP (size, BLOCK_SECTOR_SIZE)
abbrev pub bytes_to_sectors : ℕ → ℕ
bytes_to_sectors size = (size + block_sector_size - 1) / block_sector_size

-- The number at the index `i` of an array of numbers in a sector.
unfoldable pub get_word : Sector → ℕ → ℕ
get_word bytes i =
    get_or bytes (4 * i) 0
    + 256 * get_or bytes (4 * i + 1) 0
    + 256 ^ 2 * get_or bytes (4 * i + 2) 0
    + 256 ^ 3 * get_or bytes (4 * i + 3) 0

-- `struct inode`, without its lock.
pub record Inode : Type 0 where
  pub sector : ℕ
  pub open_cnt : ℕ
  pub removed : Bool
  pub deny_write_cnt : ℕ
  pub length : ℕ
  pub read_length : ℕ
  pub direct_blk_idx : ℕ
  pub indirect_blk_idx : ℕ
  pub double_indirect_blk_idx : ℕ
  pub is_dir : Bool
  pub parent : ℕ
  pub ptrs : List ℕ

-- What `byte_to_sector` returns for a byte that is not there.
abbrev pub no_sector : ℕ
no_sector = 2 ^ 32 - 1

-- How many bytes of a request lie in the sector of `offset`.
abbrev pub chunk : ℕ → ℕ → ℕ → ℕ
chunk length size offset =
    let inode_left = length - offset in
    let sector_left = block_sector_size - offset % block_sector_size in
    let min_left = if ltb inode_left sector_left then inode_left else sector_left in
    if ltb size min_left then size else min_left

module _ {Disk : Type 0} (ops : BlockOps Disk) where
  -- block_read on `fs_device`, which the cache does not see.
  abbrev pub device_read : Cache Disk → ℕ → Option (Sector × Cache Disk)
  device_read c sector = do
    (bytes, device) ← block_read ops c.fs_device sector
    some (bytes, record c { fs_device = device })

  -- A sector number in the part of `byte_to_sector` after the direct ones, for `pos` in there.
  pub indirect_sector : Cache Disk → Inode → ℕ → Option (ℕ × Cache Disk)
  indirect_sector c inode pos = do
    let span = block_sector_size * indirect_block_ptrs
    (block, c) ← device_read c (get_or inode.ptrs (pos / span + direct_blocks) 0)
    some (get_word block (pos % span / block_sector_size), c)

  -- The index into the first block is the source's; there are only 128 numbers in it.
  pub double_indirect_sector : Cache Disk → Inode → ℕ → Option (ℕ × Cache Disk)
  double_indirect_sector c inode pos = do
    let span = block_sector_size * indirect_block_ptrs
    (outer, c) ← device_read c (get_or inode.ptrs double_indirect_index 0)
    assert (ltb (pos / span) indirect_block_ptrs)
    (block, c) ← device_read c (get_word outer (pos / span))
    some (get_word block (pos % span / block_sector_size), c)

  pub byte_to_sector : Cache Disk → Inode → ℕ → ℕ → Option (ℕ × Cache Disk)
  byte_to_sector c inode length pos =
      let index = pos / block_sector_size in
      if leb length pos
      then some (no_sector, c)
      else (if ltb index direct_blocks
          then some (get_or inode.ptrs index 0, c)
          else (if ltb index (direct_blocks + indirect_blocks_count)
              then indirect_sector c inode (pos - block_sector_size * direct_blocks)
              else double_indirect_sector c inode
                  (pos - block_sector_size * (direct_blocks + indirect_blocks_count))))

  -- `while (size > 0)`, on fuel: each round takes a byte or ends.
  pub read_loop : ℕ → Cache Disk → Inode → ℕ → ℕ → ℕ → Option (List ℕ × Cache Disk)
  read_loop zero c inode length size offset = if size == 0 then some ([], c) else none
  read_loop (suc fuel) c inode length size offset =
      let n = chunk length size offset in
      let round = (do
        (sector_idx, c) ← byte_to_sector c inode length offset
        let next = (do
          (bytes, c) ← Cache.read ops c sector_idx (offset % block_sector_size) n
          (rest, c) ← read_loop fuel c inode length (size - n) (offset + n)
          some (bytes ++ rest, c))
        if n == 0 then some ([], c) else next) in
      if size == 0 then some ([], c) else round

  -- The bytes that were read; the source returns their number.
  unfoldable pub read_at : Cache Disk → Inode → ℕ → ℕ → Option (List ℕ × Cache Disk)
  read_at c inode size offset =
      if leb inode.read_length offset
      then some ([], c)
      else read_loop size c inode inode.read_length size offset

  -- The second loop, of `inode_write_at`: how much was written.
  pub write_loop : ℕ → Cache Disk → Inode → List ℕ → ℕ → ℕ → Option (ℕ × Cache Disk)
  write_loop zero c inode buffer size offset = if size == 0 then some (0, c) else none
  write_loop (suc fuel) c inode buffer size offset =
      let n = chunk inode.length size offset in
      let round = (do
        (sector_idx, c) ← byte_to_sector c inode inode.length offset
        let next = (do
          c ← Cache.write ops c sector_idx (offset % block_sector_size) (take n buffer)
          (rest, c) ← write_loop fuel c inode (drop n buffer) (size - n) (offset + n)
          some (n + rest, c))
        if n == 0 then some (0, c) else next) in
      if size == 0 then some (0, c) else round
