-- ===== src/File/Deny.antt =====
-- Denying writes to a file that is open.
use course_archive.Prelude.{
  ℕ, ◌+◌, ◌-◌, ◌<◌, ◌≡◌, refl, sym, ◌∙◌, ap, Bool, true, false, Option, some, List, ◌==◌, ltb, leb,
  Returns, arith, ◌>>=◌,
}
use course_archive.Block.{Sector, BlockOps}
use course_archive.Inode.{Inode}
use course_archive.Inode.Table.{deny_write, allow_write, find_open, put_open, write_at}
use course_archive.File.{
  OpenFile, Files, set_inode, file_deny_write, file_allow_write, file_write_at, file_write,
}
use course_archive.File.Table.{
  find_open-sector, put_open-found, find_open-put_open, put_open-put_open,
}

abbrev once_more : Inode → Inode
once_more x = record x { deny_write_cnt = x.deny_write_cnt + 1 }

module _ {Disk : Type 0} {MapFile : Type 0} (ops : BlockOps Disk)
    (map_write : MapFile → List ℕ → ℕ → ℕ → ℕ × MapFile) (garbage : Sector) (s : Files Disk MapFile)
    (file : OpenFile) (x : Inode) where
  deny-some :
      find_open s.opened file.inode ≡ some x
      → file.denies ≡ false
      → leb (x.deny_write_cnt + 1) x.open_cnt ≡ true
      → file_deny_write ops map_write garbage s file
        ≡ some (record file { denies = true }, set_inode s (once_more x))
  unfolding file_deny_write deny_write
  deny-some found allows room = rw (allows, found, room) refl

module _ {Disk : Type 0} {MapFile : Type 0} (ops : BlockOps Disk)
    (map_write : MapFile → List ℕ → ℕ → ℕ → ℕ × MapFile) (garbage : Sector) where
  write-none :
      (s : Files Disk MapFile) (g : OpenFile) (x : Inode) (buffer : List ℕ)
      → find_open s.opened g.inode ≡ some x
      → (x.deny_write_cnt == 0) ≡ false
      → file_write ops map_write garbage s g buffer
        ≡ some (0, record g { pos = g.pos + 0 }, record { fs = s.fs; opened = put_open s.opened x })
  unfolding file_write file_write_at write_at
  write-none s g x buffer found denied = rw (found, denied) refl

  allow-some :
      (s : Files Disk MapFile) (file : OpenFile) (x : Inode)
      → find_open s.opened file.inode ≡ some x
      → file.denies ≡ true
      → ltb 0 x.deny_write_cnt ≡ true
      → leb x.deny_write_cnt x.open_cnt ≡ true
      → file_allow_write ops map_write garbage s file
        ≡ some (
          record file { denies = false },
          set_inode s (record x { deny_write_cnt = x.deny_write_cnt - 1 }),
        )
  unfolding file_allow_write allow_write
  allow-some s file x found denies some_deny room = rw (denies, found, some_deny, room) refl

  -- Where an inode stands after it was changed.
  found_again :
      (s : Files Disk MapFile) (i : ℕ) (x : Inode)
      → find_open s.opened i ≡ some x
      → find_open (put_open s.opened (once_more x)) i ≡ some (once_more x)
  found_again s i x found =
      let at : x.sector ≡ i = ground (arith, find_open-sector s.opened i x found) in
      ap (find_open (put_open s.opened (once_more x))) (sym at)
      ∙ find_open-put_open s.opened x (once_more x) (ap (find_open s.opened) at ∙ found)

  abbrev pub deny_then_write :
      Files Disk MapFile
      → OpenFile
      → OpenFile
      → List ℕ
      → Option (ℕ × OpenFile × Files Disk MapFile × Files Disk MapFile)
  deny_then_write s file g buffer = do
    (_, s1) ← file_deny_write ops map_write garbage s file
    (done, g', s2) ← file_write ops map_write garbage s1 g buffer
    some (done, g', s1, s2)

  deny_then_write-some :
      (s s1 s2 : Files Disk MapFile) (file file1 g g' : OpenFile) (done : ℕ) (buffer : List ℕ)
      → file_deny_write ops map_write garbage s file ≡ some (file1, s1)
      → file_write ops map_write garbage s1 g buffer ≡ some (done, g', s2)
      → deny_then_write s file g buffer ≡ some (done, g', s1, s2)
  deny_then_write-some s s1 s2 file file1 g g' done buffer e e2 = rw (e, e2) refl

  -- After `file_deny_write` no open file of the same inode writes: `file_write` writes 0 bytes,
  -- and leaves its position and the file system as they are. An inode may be denied by as many as
  -- have it open.
  pub deny_then_write-nothing :
      (s : Files Disk MapFile) (file g : OpenFile) (x : Inode) (buffer : List ℕ)
      → find_open s.opened file.inode ≡ some x
      → file.denies ≡ false
      → x.deny_write_cnt < x.open_cnt
      → g.inode ≡ file.inode
      → Returns
          (λ (done, g', s1, s2). (done ≡ 0) × (g'.pos ≡ g.pos) × (s2 ≡ s1))
          (deny_then_write s file g buffer)
  deny_then_write-nothing s file g x buffer found allows room same =
      let denied = deny-some ops map_write garbage s file x found allows (ground (arith, room)) in
      let s1 = set_inode s (once_more x) in
      let again : find_open s1.opened g.inode ≡ some (once_more x) =
        ap (find_open s1.opened) same ∙ found_again s file.inode x found in
      let at : x.sector ≡ g.inode =
        ground (arith, find_open-sector s.opened file.inode x found, same) in
      let written = write-none s1 g (once_more x) buffer again (ground arith) in
      (
        _,
        deny_then_write-some s s1 _ file _ g _ 0 buffer denied written,
        (
          refl,
          omega arith,
          ap (λ (l : List Inode). record s1 { opened = l })
              (put_open-found s1.opened (once_more x) (ap (find_open s1.opened) at ∙ again)),
        ),
      )

  abbrev pub deny_then_allow :
      Files Disk MapFile → OpenFile → Option (OpenFile × Files Disk MapFile)
  deny_then_allow s file = do
    (file, s) ← file_deny_write ops map_write garbage s file
    file_allow_write ops map_write garbage s file

  deny_then_allow-some :
      (s s1 s2 : Files Disk MapFile) (file file1 file2 : OpenFile)
      → file_deny_write ops map_write garbage s file ≡ some (file1, s1)
      → file_allow_write ops map_write garbage s1 file1 ≡ some (file2, s2)
      → deny_then_allow s file ≡ some (file2, s2)
  deny_then_allow-some s s1 s2 file file1 file2 e e2 = rw (e, e2) refl

  -- `file_allow_write` after `file_deny_write` gives back the file and the file system as they were,
  -- for a file that does not deny writes yet and whose inode is open and is denied writes by fewer
  -- than have it open.
  pub deny_then_allow-same :
      (s : Files Disk MapFile) (file : OpenFile) (x : Inode)
      → find_open s.opened file.inode ≡ some x
      → file.denies ≡ false
      → x.deny_write_cnt < x.open_cnt
      → deny_then_allow s file ≡ some (file, s)
  deny_then_allow-same s file x found allows room =
      let denied = deny-some ops map_write garbage s file x found allows (ground (arith, room)) in
      let s1 = set_inode s (once_more x) in
      let allowed =
        allow-some s1 (record file { denies = true }) (once_more x)
          (found_again s file.inode x found) refl (ground arith) (ground (arith, room)) in
      let at : x.sector ≡ file.inode =
        ground (arith, find_open-sector s.opened file.inode x found) in
      let x2 = record x { deny_write_cnt = x.deny_write_cnt + 1 - 1 } in
      let back : x2 ≡ x = ap (λ (d : ℕ). record x { deny_write_cnt = d }) (omega arith) in
      let table : put_open (put_open s.opened (once_more x)) x2 ≡ s.opened =
        put_open-put_open s.opened (once_more x) x2 refl
        ∙ ap (put_open s.opened) back
        ∙ put_open-found s.opened x (ap (find_open s.opened) at ∙ found) in
      deny_then_allow-some s s1 _ file _ _ denied allowed
      ∙ ap (λ (l : List Inode). some (record file { denies = false }, record s { opened = l }))
          table
      ∙ ap (λ (b : Bool). some (record file { denies = b }, s)) (sym allows)
