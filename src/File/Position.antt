-- ===== src/File/Position.antt =====
-- Reading on from the position of a file.
use Prim.Native.Nat.{min}
use course_archive.Prelude.{
  ℕ, ◌+◌, ◌-◌, ◌≡◌, refl, sym, ◌∙◌, ap, Option, some, List, ◌++◌, length, Returns, arith, ◌>>=◌,
  tabulate, tabulate-append, tabulate-at, length-tabulate, length-append,
}
use course_archive.Block.{Sector, BlockOps, IsStore}
use course_archive.Cache.{Cache}
use course_archive.Inode.{Inode, read_at}
use course_archive.Inode.Read.{byte_at, IsFile, read_at-Reads}
use course_archive.Inode.Table.{find_open}
use course_archive.File.{OpenFile, Files, file_read_at, file_read}

two_reads :
    (g : ℕ → ℕ) (pos len a b : ℕ) (l1 l2 : List ℕ)
    → l1 ≡ tabulate g pos (min a (len - pos))
    → l2 ≡ tabulate g (pos + length l1) (min b (len - (pos + length l1)))
    → l1 ++ l2 ≡ tabulate g pos (min (a + b) (len - pos))
two_reads g pos len a b l1 l2 e1 e2 =
    let k = min a (len - pos) in
    let n1 : length l1 ≡ k = ap length e1 ∙ length-tabulate g pos k in
    ap (λ (l : List ℕ). l ++ l2) e1
    ∙ ap (λ (l : List ℕ). tabulate g pos k ++ l)
        (e2
          ∙ tabulate-at g {b = pos + k} {m = min b (len - (pos + k))} (omega (arith, n1))
              (omega (arith, n1)))
    ∙ sym (tabulate-append g pos k (min b (len - (pos + k))))
    ∙ tabulate-at g {b = pos} {m = min (a + b) (len - pos)} refl (omega arith)

module _ {Disk : Type 0} {MapFile : Type 0} (ops : BlockOps Disk) (store : IsStore ops)
    (map_write : MapFile → List ℕ → ℕ → ℕ → ℕ × MapFile) (garbage : Sector) where
  file_read-some :
      (s : Files Disk MapFile) (file : OpenFile) (x : Inode) (size : ℕ) (bytes : List ℕ)
      (c : Cache Disk)
      → find_open s.opened file.inode ≡ some x
      → read_at ops s.fs.cache x size file.pos ≡ some (bytes, c)
      → file_read ops map_write garbage s file size
        ≡ some (
          bytes,
          record file { pos = file.pos + length bytes },
          record s { fs = record (s.fs) { cache = c } },
        )
  unfolding file_read file_read_at
  file_read-some s file x size bytes c found e = rw (found, e) refl

  -- Two calls, one after the other.
  abbrev pub read_twice :
      Files Disk MapFile → OpenFile → ℕ → ℕ → Option (List ℕ × OpenFile × Files Disk MapFile)
  read_twice s file a b = do
    (first, file, s) ← file_read ops map_write garbage s file a
    (second, file, s) ← file_read ops map_write garbage s file b
    some (first ++ second, file, s)

  twice :
      (s s1 s2 : Files Disk MapFile) (file file1 file2 : OpenFile) (a b : ℕ) (first second : List ℕ)
      → file_read ops map_write garbage s file a ≡ some (first, file1, s1)
      → file_read ops map_write garbage s1 file1 b ≡ some (second, file2, s2)
      → read_twice s file a b ≡ some (first ++ second, file2, s2)
  twice s s1 s2 file file1 file2 a b first second e e2 = rw (e, e2) refl

  -- Two calls of `file_read` on a file whose inode is open return one after the other the bytes
  -- from the position on, as many as are wanted by both or as there are, and leave the position
  -- behind them, if the cache is coherent, the inode's sectors are inside the device and its index
  -- sectors that hold sector numbers are up to date there; this stays so.
  pub read_twice-continues :
      {n : ℕ} {f : ℕ → Sector} (s : Files Disk MapFile) (file : OpenFile) (x : Inode) (a b : ℕ)
      → find_open s.opened file.inode ≡ some x
      → IsFile ops n s.fs.cache f x x.read_length
      → Returns
          (λ (bytes, file', s').
            (bytes ≡ tabulate (byte_at f x) file.pos (min (a + b) (x.read_length - file.pos)))
            × (file'.pos ≡ file.pos + length bytes)
            × IsFile ops n s'.fs.cache f x x.read_length)
          (read_twice s file a b)
  read_twice-continues {n} {f} s file x a b found h =
      let ((l1, c1), e1, (b1, h1)) = read_at-Reads ops store x a file.pos h in
      let s1 = record s { fs = record (s.fs) { cache = c1 } } in
      let file1 = record file { pos = file.pos + length l1 } in
      let ((l2, c2), e2, (b2, h2)) = read_at-Reads ops store x b (file.pos + length l1) h1 in
      let bytes : l1 ++ l2
          ≡ tabulate (byte_at f x) file.pos (min (a + b) (x.read_length - file.pos)) =
        two_reads (byte_at f x) file.pos x.read_length a b l1 l2 b1 b2 in
      (
        _,
        twice s s1 _ file file1 _ a b l1 l2 (file_read-some s file x a l1 c1 found e1)
            (file_read-some s1 file1 x b l2 c2 found e2),
        (bytes, omega (arith, length-append l1 l2), h2),
      )
