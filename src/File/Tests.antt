-- ===== src/File/Tests.antt =====
-- The theorems on open files, at the file of 1000 bytes of the tests on inodes.
use Prim.Native.Nat.{min}
use course_archive.Prelude.{
  ℕ, ◌+◌, ◌-◌, ◌≡◌, refl, false, some, [], ◌∷◌, length, Returns, arith, tabulate,
}
use course_archive.Block.{Sector}
use course_archive.Inode.Read.{byte_at, IsFile}
use course_archive.Inode.Sample.{
  memory, memory-IsStore, disk, file, fs0, file-IsFile, file_write_at,
}
use course_archive.File.{OpenFile, Files}
use course_archive.File.Position.{read_twice, read_twice-continues}
use course_archive.File.Deny.{
  deny_then_write, deny_then_write-nothing, deny_then_allow, deny_then_allow-same,
}

abbrev files : Files (ℕ → Sector) ℕ
files = record { fs = fs0; opened = file ∷ [] }

abbrev at_500 : OpenFile
at_500 = record { inode = 30; pos = 500; denies = false }

read_twice-continues_example :
    Returns
      (λ (bytes, file', s').
        (bytes ≡ tabulate (byte_at disk file) 500 (min (20 + 600) (1000 - 500)))
        × (file'.pos ≡ 500 + length bytes)
        × IsFile memory 100 s'.fs.cache disk file 1000)
      (read_twice memory memory-IsStore file_write_at [] files at_500 20 600)
read_twice-continues_example =
    read_twice-continues memory memory-IsStore file_write_at [] files at_500 file 20 600 refl
      file-IsFile

deny_then_write-nothing_example :
    Returns
      (λ (done, g', s1, s2). (done ≡ 0) × (g'.pos ≡ 500) × (s2 ≡ s1))
      (deny_then_write memory file_write_at [] files at_500 at_500 (7 ∷ 8 ∷ []))
deny_then_write-nothing_example =
    deny_then_write-nothing memory file_write_at [] files at_500 at_500 file (7 ∷ 8 ∷ []) refl refl
      (omega arith) refl

deny_then_allow-same_example :
    deny_then_allow memory file_write_at [] files at_500 ≡ some (at_500, files)
deny_then_allow-same_example =
    deny_then_allow-same memory file_write_at [] files at_500 file refl refl (omega arith)
