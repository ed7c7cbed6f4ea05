-- ===== src/Inode/Reopen.antt =====
-- An inode that is closed is the same when it is opened.
use course_archive.Prelude.{
  ℕ, ◌+◌, ◌-◌, ◌%◌, ◌^◌, ◌<◌, ◌≡◌, refl, ◌∙◌, ap, true, false, Option, none, some, List, ◌∷◌, ◌==◌,
  ltb, Returns, arith, lt→ltb, ◌>>=◌,
}
use course_archive.Block.{Sector, BlockOps, IsStore, is_foreign}
use course_archive.Inode.{Inode}
use course_archive.Inode.Words.{Stores, disk_inode, from_disk, from_disk-disk_inode}
use course_archive.Inode.Grow.{Fs}
use course_archive.Inode.Table.{inode_open, inode_close, close_last, find_open, remove_open}

module _ {Disk : Type 0} {File : Type 0} (ops : BlockOps Disk) (store : IsStore ops)
    (file_write_at : File → List ℕ → ℕ → ℕ → ℕ × File) (garbage : Sector) where
  -- The disk after a write at a sector.
  abbrev stored_at : Fs Disk File → ℕ → Sector → Fs Disk File
  stored_at fs sector bytes = record fs {
    cache = record (fs.cache) {
      fs_device = record (fs.cache.fs_device) {
        aux = ops.write fs.cache.fs_device.aux sector bytes;
        write_cnt = (fs.cache.fs_device.write_cnt + 1) % 2 ^ 64;
      };
    };
  }

  close-writes :
      (fs : Fs Disk File) (opened : List Inode) (x : Inode)
      → (x.open_cnt - 1 == 0) ≡ true
      → x.removed ≡ false
      → ltb x.sector fs.cache.fs_device.size ≡ true
      → is_foreign fs.cache.fs_device.type ≡ false
      → inode_close ops file_write_at garbage fs opened x
        ≡ some (stored_at fs x.sector (disk_inode x), remove_open opened x.sector)
  unfolding inode_close close_last
  close-writes fs opened x last kept fits own = rw (last, kept, fits, own) refl

  abbrev read_once : Fs Disk File → Fs Disk File
  read_once fs = record fs {
    cache = record (fs.cache) {
      fs_device = record (fs.cache.fs_device) {
        read_cnt = (fs.cache.fs_device.read_cnt + 1) % 2 ^ 64;
      };
    };
  }

  open-reads :
      (fs : Fs Disk File) (opened : List Inode) (sector : ℕ)
      → find_open opened sector ≡ none
      → ltb sector fs.cache.fs_device.size ≡ true
      → inode_open ops file_write_at garbage true fs opened sector
        ≡ some (
          some (from_disk sector (ops.read fs.cache.fs_device.aux sector)),
          read_once fs,
          from_disk sector (ops.read fs.cache.fs_device.aux sector) ∷ opened,
        )
  unfolding inode_open
  open-reads fs opened sector gone fits = rw (gone, inode_open, fits) refl

  -- `inode_close` by the last opener, and `inode_open`.
  abbrev pub close_then_open :
      Fs Disk File → List Inode → Inode → Option (Option Inode × Fs Disk File × List Inode)
  close_then_open fs opened x = do
    (fs, opened) ← inode_close ops file_write_at garbage fs opened x
    inode_open ops file_write_at garbage true fs opened x.sector

  -- An inode that its last opener closes is the same when it is opened again, if it was not removed,
  -- its numbers have 32 bits, its sector is one of the device and of no other open inode, and there is
  -- memory for it: length, numbers of sectors, kind and parent come back from the disk.
  pub close_then_open-same :
      (fs : Fs Disk File) (opened : List Inode) (x : Inode)
      → Stores x
      → x.open_cnt ≡ 1
      → x.removed ≡ false
      → find_open (remove_open opened x.sector) x.sector ≡ none
      → x.sector < fs.cache.fs_device.size
      → is_foreign fs.cache.fs_device.type ≡ false
      → Returns
          (λ (y, _, opened').
            (y
              ≡ some (record x {
                open_cnt = 1;
                removed = false;
                deny_write_cnt = 0;
                read_length = x.length;
              }))
            × (opened'
                ≡ record x {
                  open_cnt = 1;
                  removed = false;
                  deny_write_cnt = 0;
                  read_length = x.length;
                }
                  ∷ remove_open opened x.sector))
          (close_then_open fs opened x)
  close_then_open-same fs opened x h one kept gone inside own =
      let last : (x.open_cnt - 1 == 0) ≡ true = ground (arith, one) in
      let fits = lt→ltb x.sector fs.cache.fs_device.size inside in
      let fs1 = stored_at fs x.sector (disk_inode x) in
      let self : (x.sector == x.sector) ≡ true = ground arith in
      let back : ops.read fs1.cache.fs_device.aux x.sector ≡ disk_inode x =
        store.read-write fs.cache.fs_device.aux x.sector x.sector (disk_inode x) ∙ rw self refl in
      let whole = ap (from_disk x.sector) back ∙ from_disk-disk_inode x h in
      (
        _,
        both fs fs1 opened (remove_open opened x.sector) x
            (close-writes fs opened x last kept fits own)
            (open-reads fs1 (remove_open opened x.sector) x.sector gone fits),
        (
          ap (λ (y : Inode). some y) whole,
          ap (λ (y : Inode). y ∷ remove_open opened x.sector) whole,
        ),
      )
    where
      both :
          (fs fs1 : Fs Disk File) (opened opened1 : List Inode) (x : Inode)
          {r : Option Inode × Fs Disk File × List Inode}
          → inode_close ops file_write_at garbage fs opened x ≡ some (fs1, opened1)
          → inode_open ops file_write_at garbage true fs1 opened1 x.sector ≡ some r
          → close_then_open fs opened x ≡ some r
      both fs fs1 opened opened1 x e e2 = rw (e, e2) refl
