-- ===== src/Block.antt =====
-- PintOS/src/devices/block.c: block devices. The driver's operations are a parameter, as the
-- `struct block_operations` that a driver registers; `none` is a PANIC or a failed ASSERT.
use course_archive.Prelude.{
  ℕ, ◌+◌, ◌%◌, ◌^◌, ◌≡◌, Bool, true, false, not, Option, some, List, ◌==◌, ltb, if◌then◌else◌, ◌>>◌,
  assert,
}

-- `enum block_type`
pub data BlockType : Type 0 where
  kernel filesys scratch swap raw foreign : BlockType

abbrev pub is_foreign : BlockType → Bool
is_foreign foreign = true
is_foreign _ = false

-- BLOCK_SECTOR_SIZE, and the bytes of one sector.
abbrev pub block_sector_size : ℕ
block_sector_size = 512

abbrev pub Sector : Type 0
Sector = List ℕ

-- `Disk` stands for the driver's `aux`.
pub record BlockOps (Disk : Type 0) : Type 0 where
  pub read : Disk → ℕ → Sector
  pub write : Disk → ℕ → Sector → Disk

-- A driver that reads what was written last.
pub record IsStore {Disk : Type 0} (ops : BlockOps Disk) : Type 0 where
  pub read-write :
      (d : Disk) (s t : ℕ) (data' : Sector)
      → ops.read (ops.write d s data') t ≡ (if t == s then data' else ops.read d t)

pub record Block (Disk : Type 0) : Type 0 where
  pub type : BlockType
  pub size : ℕ
  pub aux : Disk
  pub read_cnt : ℕ
  pub write_cnt : ℕ

module _ {Disk : Type 0} where
  abbrev pub check_sector : Block Disk → ℕ → Option (Unit {0})
  check_sector block sector = assert (ltb sector block.size)

  module _ (ops : BlockOps Disk) where
    abbrev pub block_read : Block Disk → ℕ → Option (Sector × Block Disk)
    block_read block sector = do
      check_sector block sector
      some (ops.read block.aux sector, record block { read_cnt = (block.read_cnt + 1) % 2 ^ 64 })

    abbrev pub block_write : Block Disk → ℕ → Sector → Option (Block Disk)
    block_write block sector buffer = do
      check_sector block sector
      assert (not (is_foreign block.type))
      some (record block {
        aux = ops.write block.aux sector buffer;
        write_cnt = (block.write_cnt + 1) % 2 ^ 64;
      })
