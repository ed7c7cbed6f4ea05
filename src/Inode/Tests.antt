-- ===== src/Inode/Tests.antt =====
-- The theorems on inodes, at a file on a disk in memory.
use course_archive.Prelude.{◌-◌, ◌/◌, ◌≡◌, refl, false, some, [], ◌∷◌, Returns, arith, tabulate}
use Prim.Native.Nat.{min}
use course_archive.Inode.{byte_to_sector, read_at}
use course_archive.Inode.Sectors.{sector_of, Reread, byte_to_sector-of}
use course_archive.Inode.Read.{byte_at, IsFile, read_at-Reads}
use course_archive.Inode.WriteLoop.{Written}
use course_archive.Inode.Table.{write_at}
use course_archive.Inode.RoundTrip.{write_at-Written, write_then_read, write_then_read-buffer}
use course_archive.Inode.Reopen.{close_then_open, close_then_open-same}
use course_archive.Inode.Sample.{
  memory, memory-IsStore, disk, started, file, c0, file-Indexed, file-IsFile, file-Apart,
  file-Stores, fs0, file_write_at,
}

byte_to_sector-of_example :
    Returns
      (λ (s, c'). (s ≡ sector_of disk file (600 / 512)) × Reread memory 100 disk c0 c')
      (byte_to_sector memory c0 file 1000 600)
byte_to_sector-of_example =
    byte_to_sector-of memory file-IsFile.ready file-Indexed 1000 600 (omega arith) (omega arith)

read_at-Reads_example :
    Returns
      (λ (bytes, c').
        (bytes ≡ tabulate (byte_at disk file) 500 (min 600 (1000 - 500)))
        × IsFile memory 100 c' disk file 1000)
      (read_at memory c0 file 600 500)
read_at-Reads_example = read_at-Reads memory memory-IsStore file 600 500 file-IsFile

write_at-Written_example :
    Returns
      (λ (done, fs', x').
        (done ≡ 3)
        × (x' ≡ record file { read_length = 1000 })
        × (fs'.map ≡ fs0.map)
        × Written memory memory-IsStore 100 file 1000 disk (7 ∷ 8 ∷ 9 ∷ []) 511 3 fs'.cache)
      (write_at memory file_write_at [] fs0 file (7 ∷ 8 ∷ 9 ∷ []) 511)
write_at-Written_example =
    write_at-Written memory memory-IsStore file_write_at [] fs0 file (7 ∷ 8 ∷ 9 ∷ []) 511
      file-IsFile file-Apart refl (omega arith)

write_then_read-buffer_example :
    Returns
      (λ (bytes, _). bytes ≡ 7 ∷ 8 ∷ 9 ∷ [])
      (write_then_read memory memory-IsStore file_write_at [] fs0 file (7 ∷ 8 ∷ 9 ∷ []) 511)
write_then_read-buffer_example =
    write_then_read-buffer memory memory-IsStore file_write_at [] fs0 file (7 ∷ 8 ∷ 9 ∷ []) 511
      file-IsFile file-Apart refl (omega arith)

close_then_open-same_example :
    Returns
      (λ (y, _, opened').
        (y
          ≡ some (record file {
            open_cnt = 1;
            removed = false;
            deny_write_cnt = 0;
            read_length = 1000;
          }))
        × (opened'
            ≡ record file { open_cnt = 1; removed = false; deny_write_cnt = 0; read_length = 1000 }
              ∷ []))
      (close_then_open memory memory-IsStore file_write_at []
        (record fs0 { cache = started })
        (file ∷ [])
        file)
close_then_open-same_example =
    close_then_open-same memory memory-IsStore file_write_at [] (record fs0 { cache = started })
      (file ∷ []) file file-Stores refl refl refl (omega arith) refl
