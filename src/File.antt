-- ===== src/File.antt =====
-- PintOS/src/filesys/file.c: open files. An inode is named by its sector, as in the table of open
-- inodes; one that is not in the table was freed, and `none` stands for following such a pointer.
-- `storage` is whether `calloc` succeeds, and `map_write` writes the file of the free map.

pub mod Table
pub mod Position
pub mod Deny
mod Tests
use course_archive.Prelude.{
  ℕ, ◌+◌, Bool, true, false, not, Option, none, some, List, if◌then◌else◌, length, ◌>>=◌,
}
use course_archive.Block.{Sector, BlockOps}
use course_archive.Inode.{Inode, read_at}
use course_archive.Inode.Grow.{Fs}
use course_archive.Inode.Table.{
  reopen, deny_write, allow_write, find_open, put_open, write_at, inode_close,
}

-- `struct file`
pub record OpenFile : Type 0 where
  pub inode : ℕ
  pub pos : ℕ
  pub denies : Bool

-- The file system with its table of open inodes.
pub record Files (Disk : Type 0) (MapFile : Type 0) : Type 0 where
  pub fs : Fs Disk MapFile
  pub opened : List Inode

module _ {Disk : Type 0} {MapFile : Type 0} where
  abbrev pub set_inode : Files Disk MapFile → Inode → Files Disk MapFile
  set_inode s x = record s { opened = put_open s.opened x }

module _ {Disk : Type 0} {MapFile : Type 0} (ops : BlockOps Disk)
    (map_write : MapFile → List ℕ → ℕ → ℕ → ℕ × MapFile) (garbage : Sector) where
  abbrev pub close_inode : Files Disk MapFile → ℕ → Option (Files Disk MapFile)
  close_inode s inode = do
    x ← find_open s.opened inode
    (fs, opened) ← inode_close ops map_write garbage s.fs s.opened x
    some (record { fs = fs; opened = opened })

  abbrev pub file_open :
      Bool → Files Disk MapFile → Option ℕ → Option (Option OpenFile × Files Disk MapFile)
  file_open storage s none = some (none, s)
  file_open true s (some inode) = some (some (record { inode = inode; pos = 0; denies = false }), s)
  file_open false s (some inode) = do s ← close_inode s inode; some (none, s)

  abbrev pub file_reopen :
      Bool → Files Disk MapFile → OpenFile → Option (Option OpenFile × Files Disk MapFile)
  file_reopen storage s file = do
    x ← find_open s.opened file.inode
    file_open storage (set_inode s (reopen x)) (some file.inode)

  unfoldable pub file_deny_write :
      Files Disk MapFile → OpenFile → Option (OpenFile × Files Disk MapFile)
  file_deny_write s file =
      let denied = (do
        x ← find_open s.opened file.inode
        x ← deny_write x
        some (record file { denies = true }, set_inode s x)) in
      if not (file.denies) then denied else some (file, s)

  unfoldable pub file_allow_write :
      Files Disk MapFile → OpenFile → Option (OpenFile × Files Disk MapFile)
  file_allow_write s file =
      let allowed = (do
        x ← find_open s.opened file.inode
        x ← allow_write x
        some (record file { denies = false }, set_inode s x)) in
      if file.denies then allowed else some (file, s)

  abbrev pub file_close : Files Disk MapFile → OpenFile → Option (Files Disk MapFile)
  file_close s file = do (file, s) ← file_allow_write s file; close_inode s file.inode

  -- The bytes that were read; the source returns their number.
  unfoldable pub file_read_at :
      Files Disk MapFile → OpenFile → ℕ → ℕ → Option (List ℕ × Files Disk MapFile)
  file_read_at s file size file_ofs = do
    x ← find_open s.opened file.inode
    (bytes, c) ← read_at ops s.fs.cache x size file_ofs
    some (bytes, record s { fs = record (s.fs) { cache = c } })

  unfoldable pub file_read :
      Files Disk MapFile → OpenFile → ℕ → Option (List ℕ × OpenFile × Files Disk MapFile)
  file_read s file size = do
    (bytes, s) ← file_read_at s file size file.pos
    some (bytes, record file { pos = file.pos + length bytes }, s)

  unfoldable pub file_write_at :
      Files Disk MapFile → OpenFile → List ℕ → ℕ → Option (ℕ × Files Disk MapFile)
  file_write_at s file buffer file_ofs = do
    x ← find_open s.opened file.inode
    (done, fs, x) ← write_at ops map_write garbage s.fs x buffer file_ofs
    some (done, record { fs = fs; opened = put_open s.opened x })

  unfoldable pub file_write :
      Files Disk MapFile → OpenFile → List ℕ → Option (ℕ × OpenFile × Files Disk MapFile)
  file_write s file buffer = do
    (done, s) ← file_write_at s file buffer file.pos
    some (done, record file { pos = file.pos + done }, s)

  abbrev pub file_length : Files Disk MapFile → OpenFile → Option ℕ
  file_length s file = do x ← find_open s.opened file.inode; some (x.length)

abbrev pub file_seek : OpenFile → ℕ → OpenFile
file_seek file new_pos = record file { pos = new_pos }

abbrev pub file_tell : OpenFile → ℕ
file_tell file = file.pos
