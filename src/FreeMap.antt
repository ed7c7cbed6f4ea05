-- ===== src/FreeMap.antt =====
-- PintOS/src/filesys/free-map.c: which sectors of the file system device are in use. The file that
-- keeps the map on disk is a parameter: `file_write_at` writes the words of the map at an offset
-- and returns the number of bytes written, with the file as it is then.
pub mod Allocate
mod Tests
use course_archive.Prelude.{
  ℕ, Bool, false, Option, none, some, List, ◌==◌, if◌then◌else◌, ◌>>=◌, ◌>>◌, assert,
}
use course_archive.Bitmap
use course_archive.Bitmap.{Bitmap, byte_cnt, bitmap_error}

-- `free_map` and `free_map_file`; a null file is `none`.
pub record FreeMap (File : Type 0) : Type 0 where
  pub bitmap : Bitmap
  pub file : Option File

abbrev pub free_map_sector : ℕ
free_map_sector = 0

abbrev pub root_dir_sector : ℕ
root_dir_sector = 1

module _ {File : Type 0} (file_write_at : File → List ℕ → ℕ → ℕ → ℕ × File) where
  -- bitmap_write
  abbrev pub bitmap_write : Bitmap → File → Bool × File
  bitmap_write b file =
      let size = byte_cnt b.bit_cnt in
      let (written, file') = file_write_at file b.bits size 0 in (written == size, file')

  -- What follows the search, in `allocate`. The result is `*sectorp`, or `none` for false.
  pub commit : Bitmap → Option File → ℕ → ℕ → Option (Option ℕ × FreeMap File)
  commit b none cnt sector = some (some sector, record { bitmap = b; file = none })
  commit b (some f) cnt sector =
      let (done, f') = bitmap_write b f in
      if done then some (some sector, record { bitmap = b; file = some f' }) else (do
        b' ← Bitmap.set_multiple b sector cnt false
        some (none, record { bitmap = b'; file = some f' }))

  unfoldable pub allocate : FreeMap File → ℕ → Option (Option ℕ × FreeMap File)
  allocate s cnt = do
    (sector, b) ← Bitmap.scan_and_flip s.bitmap 0 cnt false
    if sector == bitmap_error
        then some (none, record s { bitmap = b })
        else commit b s.file cnt sector

  -- A null file is dereferenced in `bitmap_write`.
  pub save : Bitmap → Option File → Option (FreeMap File)
  save b none = none
  save b (some f) =
      let (done, f') = bitmap_write b f in some (record { bitmap = b; file = some f' })

  unfoldable pub release : FreeMap File → ℕ → ℕ → Option (FreeMap File)
  release s sector cnt = do
    used ← Bitmap.all s.bitmap sector cnt
    assert used
    b ← Bitmap.set_multiple s.bitmap sector cnt false
    save b s.file

-- `storage` as in `bitmap_create`; a null bitmap is a PANIC.
unfoldable pub init : {File : Type 0} → ℕ → Bool → Option (List ℕ) → Option (FreeMap File)
init block_size header storage = do
  created ← Bitmap.create block_size header storage
  b ← created
  b ← Bitmap.mark b free_map_sector
  b ← Bitmap.mark b root_dir_sector
  some (record { bitmap = b; file = none })
