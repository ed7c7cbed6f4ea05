-- ===== src/Inode/RoundTrip.antt =====
-- What is written to a file is read back.
use mathlib.Core.Path.{subst}
use course_archive.Prelude.{
  ℕ, ◌+◌, ◌-◌, ◌≤◌, ◌≡◌, refl, sym, ◌∙◌, true, false, Option, some, List, ◌==◌, ltb, get_or, length,
  Returns, arith, ◌>>=◌, tabulate, tabulate-ext, tabulate-at, take-tabulate, take-length,
}
use course_archive.Block.{Sector, BlockOps, IsStore}
use course_archive.Cache.{Cache}
use course_archive.Inode.{Inode, bytes_to_sectors, write_loop, read_at}
use course_archive.Inode.Sectors.{sector_of}
use course_archive.Inode.Read.{byte_at, IsFile, read_at-Reads}
use course_archive.Inode.Write.{within, Apart}
use course_archive.Inode.WriteLoop.{Written, write_loop-Written}
use course_archive.Inode.Grow.{Fs}
use course_archive.Inode.Table.{write_at, make_room}

module _ {Disk : Type 0} {File : Type 0} (ops : BlockOps Disk) (store : IsStore ops)
    (file_write_at : File → List ℕ → ℕ → ℕ → ℕ × File) (garbage : Sector) where
  write_at-loop :
      (fs : Fs Disk File) (x : Inode) (buffer : List ℕ) (offset done : ℕ) (c : Cache Disk)
      → (x.deny_write_cnt == 0) ≡ true
      → ltb x.length (offset + length buffer) ≡ false
      → write_loop ops (length buffer) fs.cache x buffer (length buffer) offset ≡ some (done, c)
      → write_at ops file_write_at garbage fs x buffer offset
        ≡ some (done, record fs { cache = c }, record x { read_length = x.length })
  unfolding write_at make_room
  write_at-loop fs x buffer offset done c open_for room e = rw (open_for, room, e) refl

  -- `inode_write_at` inside a file never panics, if writes are not denied, the sectors with numbers
  -- are up to date on the device, and no two places of the file share a sector with each other or
  -- with them: it writes the whole buffer, every byte of the file outside it stays as it was, and so
  -- does every sector that has no data of the file.
  pub write_at-Written :
      {n : ℕ} {f : ℕ → Sector} (fs : Fs Disk File) (x : Inode) (buffer : List ℕ) (offset : ℕ)
      → IsFile ops n fs.cache f x x.length
      → Apart f x (bytes_to_sectors x.length)
      → (x.deny_write_cnt == 0) ≡ true
      → offset + length buffer ≤ x.length
      → Returns
          (λ (done, fs', x').
            (done ≡ length buffer)
            × (x' ≡ record x { read_length = x.length })
            × (fs'.map ≡ fs.map)
            × Written ops store n x x.length f buffer offset (length buffer) fs'.cache)
          (write_at ops file_write_at garbage fs x buffer offset)
  write_at-Written {n} {f} fs x buffer offset h a open_for fits =
      let ((done, c), e, (total, w)) =
        write_loop-Written ops store n x (length buffer) buffer (length buffer) offset refl
          (omega arith) h a in
      let whole : done ≡ length buffer = omega (arith, total, fits) in
      (
        (done, record fs { cache = c }, record x { read_length = x.length }),
        write_at-loop fs x buffer offset done c open_for (ground (arith, fits)) e,
        (
          whole,
          refl,
          refl,
          subst (λ (k : ℕ). Written ops store n x x.length f buffer offset k c) whole w,
        ),
      )

  -- The bytes of a buffer that was written.
  read_back :
      {n : ℕ} {f : ℕ → Sector} {c : Cache Disk} (x : Inode) (buffer : List ℕ) (offset : ℕ)
      → (w : Written ops store n x x.length f buffer offset (length buffer) c)
      → offset + length buffer ≤ x.length
      → tabulate (byte_at w.sectors x) offset (length buffer) ≡ buffer
  read_back {n} {f} x buffer offset w fits =
      tabulate-ext (byte_at w.sectors x) (λ i. get_or buffer i 0) offset 0 (length buffer)
        (λ k lt.
          let inside : within offset (length buffer) (offset + k) ≡ true = ground (arith, lt) in
          let place : (offset + k) - offset ≡ 0 + k = omega arith in
          w.bytes (offset + k) (omega (arith, lt, fits)) ∙ rw (inside, place) refl)
      ∙ sym (take-tabulate buffer (length buffer) 0 (omega arith))
      ∙ take-length buffer

  -- `read_length` says nothing about the places of the bytes.
  relabel :
      {n : ℕ} {f : ℕ → Sector} {c : Cache Disk} (x : Inode)
      → IsFile ops n c f x x.length
      → IsFile ops n c f (record x { read_length = x.length }) x.length
  unfolding sector_of
  relabel x h = record {
    ready = h.ready;
    indexed = record {
      indirect = h.indexed.indirect;
      outer = h.indexed.outer;
      inner = h.indexed.inner;
      room = h.indexed.room;
    };
    data_inside = h.data_inside;
    full = h.full;
  }

  byte_at-relabel :
      (f : ℕ → Sector) (x : Inode) (i : ℕ)
      → byte_at f (record x { read_length = x.length }) i ≡ byte_at f x i
  unfolding sector_of
  byte_at-relabel f x i = refl

  -- `inode_read_at` after `inode_write_at`.
  abbrev pub write_then_read : Fs Disk File → Inode → List ℕ → ℕ → Option (List ℕ × Cache Disk)
  write_then_read fs x buffer offset = do
    (_, fs, x) ← write_at ops file_write_at garbage fs x buffer offset
    read_at ops fs.cache x (length buffer) offset

  -- What `inode_write_at` writes inside a file, `inode_read_at` reads back, if writes are not denied,
  -- the sectors with numbers are up to date on the device, and no two places of the file share a
  -- sector with each other or with them.
  pub write_then_read-buffer :
      {n : ℕ} {f : ℕ → Sector} (fs : Fs Disk File) (x : Inode) (buffer : List ℕ) (offset : ℕ)
      → IsFile ops n fs.cache f x x.length
      → Apart f x (bytes_to_sectors x.length)
      → (x.deny_write_cnt == 0) ≡ true
      → offset + length buffer ≤ x.length
      → Returns (λ (bytes, _). bytes ≡ buffer) (write_then_read fs x buffer offset)
  write_then_read-buffer {n} {f} fs x buffer offset h a open_for fits =
      let ((done, c), e, (total, w)) =
        write_loop-Written ops store n x (length buffer) buffer (length buffer) offset refl
          (omega arith) h a in
      let whole : done ≡ length buffer = omega (arith, total, fits) in
      let w' : Written ops store n x x.length f buffer offset (length buffer) c =
        subst (λ (k : ℕ). Written ops store n x x.length f buffer offset k c) whole w in
      let x' = record x { read_length = x.length } in
      let ((bytes, c2), e2, (b, _)) =
        read_at-Reads ops store x' (length buffer) offset (relabel x w'.file) in
      (
        (bytes, c2),
        after fs x buffer offset done c (bytes, c2)
            (write_at-loop fs x buffer offset done c open_for (ground (arith, fits)) e) e2,
        b
            ∙ tabulate-at (byte_at w'.sectors x') {m = length buffer} refl (omega (arith, fits))
            ∙ tabulate-ext (byte_at w'.sectors x') (byte_at w'.sectors x) offset offset
                (length buffer) (λ k lt. byte_at-relabel w'.sectors x (offset + k))
            ∙ read_back x buffer offset w' fits,
      )
    where
      after :
          (fs : Fs Disk File) (x : Inode) (buffer : List ℕ) (offset done : ℕ) (c : Cache Disk)
          (r : List ℕ × Cache Disk)
          → write_at ops file_write_at garbage fs x buffer offset
            ≡ some (done, record fs { cache = c }, record x { read_length = x.length })
          → read_at ops c (record x { read_length = x.length }) (length buffer) offset ≡ some r
          → write_then_read fs x buffer offset ≡ some r
      after fs x buffer offset done c r e e2 = rw e e2
