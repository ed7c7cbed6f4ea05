-- ===== src/Inode/Table.antt =====
-- The calls of inode.c on files: writing, and the table of open inodes. An open inode is named by
-- its sector, as opening a sector twice gives the same one; its lock is free between the calls.
use course_archive.Prelude.{
  ℕ, ◌+◌, ◌-◌, Bool, true, false, Option, none, some, List, [], ◌∷◌, ◌==◌, ltb, leb, if◌then◌else◌,
  length, replicate, ◌>>=◌, ◌>>◌, assert,
}
use course_archive.Block.{Sector, BlockOps}
use course_archive.FreeMap.{root_dir_sector}
use course_archive.Inode.{Inode, inode_block_ptrs, write_loop}
use course_archive.Inode.Words.{disk_inode, from_disk}
use course_archive.Inode.Grow.{Fs, device_write, device_read_fs, release_one, grow, deallocate}

-- `inode_reopen`, `inode_remove`, `inode_deny_write`, `inode_allow_write`
abbrev pub reopen : Inode → Inode
reopen x = record x { open_cnt = x.open_cnt + 1 }

abbrev pub inode_remove : Inode → Inode
inode_remove x = record x { removed = true }

unfoldable pub deny_write : Inode → Option Inode
deny_write x = do
  let x' = record x { deny_write_cnt = x.deny_write_cnt + 1 }
  assert (leb x'.deny_write_cnt x'.open_cnt)
  some x'

unfoldable pub allow_write : Inode → Option Inode
allow_write x = do
  assert (ltb 0 x.deny_write_cnt)
  assert (leb x.deny_write_cnt x.open_cnt)
  some (record x { deny_write_cnt = x.deny_write_cnt - 1 })

-- The open inode of a sector; with another in its place; and without it.
abbrev pub find_open : List Inode → ℕ → Option Inode
find_open [] sector = none
find_open (x ∷ l) sector = if x.sector == sector then some x else find_open l sector

abbrev pub put_open : List Inode → Inode → List Inode
put_open [] y = []
put_open (x ∷ l) y = if x.sector == y.sector then y ∷ l else x ∷ put_open l y

abbrev pub remove_open : List Inode → ℕ → List Inode
remove_open [] sector = []
remove_open (x ∷ l) sector = if x.sector == sector then l else x ∷ remove_open l sector

-- The inode that `inode_allocate` starts from.
abbrev pub empty_inode : Inode
empty_inode = record {
  sector = 0;
  open_cnt = 0;
  removed = false;
  deny_write_cnt = 0;
  length = 0;
  read_length = 0;
  direct_blk_idx = 0;
  indirect_blk_idx = 0;
  double_indirect_blk_idx = 0;
  is_dir = false;
  parent = 0;
  ptrs = replicate inode_block_ptrs 0;
}

module _ {Disk : Type 0} {File : Type 0} (ops : BlockOps Disk)
    (file_write_at : File → List ℕ → ℕ → ℕ → ℕ × File) (garbage : Sector) where
  -- The part of `inode_write_at` before its loop.
  unfoldable pub make_room : Fs Disk File → Inode → ℕ → Option (Fs Disk File × Inode)
  make_room fs x end =
      let grown = (do
        (n, fs, x) ← grow ops file_write_at garbage fs x end
        some (fs, record x { length = n })) in
      if ltb x.length end then grown else some (fs, x)

  unfoldable pub write_at : Fs Disk File → Inode → List ℕ → ℕ → Option (ℕ × Fs Disk File × Inode)
  write_at fs x buffer offset =
      let size = length buffer in
      let writes = (do
        (fs, x) ← make_room fs x (offset + size)
        (done, c) ← write_loop ops size fs.cache x buffer size offset
        some (done, record fs { cache = c }, record x { read_length = x.length })) in
      if x.deny_write_cnt == 0 then writes else some (0, fs, x)

  -- The inode from which `inode_allocate` fills the structure on disk.
  unfoldable pub inode_allocate : Fs Disk File → ℕ → Option (Fs Disk File × Inode)
  inode_allocate fs length = do
    (_, fs, x) ← grow ops file_write_at garbage fs empty_inode length
    some (fs, x)

  -- `storage` is whether `calloc` succeeds.
  unfoldable pub inode_create : Bool → Fs Disk File → ℕ → ℕ → Bool → Option (Bool × Fs Disk File)
  inode_create storage fs sector length is_dir =
      let created = (do
        (fs, x) ← inode_allocate fs length
        fs ←
            device_write ops file_write_at garbage fs sector
              (disk_inode (record x { length = length; is_dir = is_dir; parent = root_dir_sector }))
        some (true, fs)) in
      if storage then created else some (false, fs)

  -- `storage` is whether `malloc` succeeds; the first result is the inode, or a null pointer.
  unfoldable pub inode_open :
      Bool → Fs Disk File → List Inode → ℕ → Option (Option Inode × Fs Disk File × List Inode)
  inode_open storage fs opened sector =
      let loaded = (do
        (data', fs) ← device_read_fs ops file_write_at garbage fs sector
        let x = from_disk sector data'
        some (some x, fs, x ∷ opened)) in
      let fresh = if storage then loaded else some (none, fs, opened) in
      elim (find_open opened sector) [
        | none ↦ fresh
        | some x ↦ some (some (reopen x), fs, put_open opened (reopen x))
      ]

  -- What `inode_close` does for the last opener.
  unfoldable pub close_last : Fs Disk File → Inode → Option (Fs Disk File)
  close_last fs x =
      let gone = (do
        fs ← release_one ops file_write_at garbage fs x.sector
        deallocate ops file_write_at garbage fs x) in
      if x.removed then gone else device_write ops file_write_at garbage fs x.sector (disk_inode x)

  unfoldable pub inode_close :
      Fs Disk File → List Inode → Inode → Option (Fs Disk File × List Inode)
  inode_close fs opened x =
      let y = record x { open_cnt = x.open_cnt - 1 } in
      let last = (do fs ← close_last fs y; some (fs, remove_open opened y.sector)) in
      if y.open_cnt == 0 then last else some (fs, put_open opened y)
