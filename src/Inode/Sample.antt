-- ===== src/Inode/Sample.antt =====
-- A disk in memory with a file on it, for the tests.
use course_archive.Prelude.{
  ℕ, zero, suc, ◌+◌, ◌<◌, ◌≡◌, refl, false, none, List, ◌∷◌, ◌==◌, if◌then◌else◌, length, replicate,
  arith,
}
use course_archive.Block.{BlockType, Sector, BlockOps, IsStore}
use course_archive.Cache.{Cache, blank, init}
use course_archive.Cache.Flush.{init-Ready}
use course_archive.Inode.{Inode}
use course_archive.Inode.Sectors.{sector_of, Indexed}
use course_archive.Inode.Words.{Stores, Small-replicate}
use course_archive.Inode.Read.{IsFile}
use course_archive.Inode.Write.{Apart}
use course_archive.Inode.Grow.{Fs}

abbrev pub memory : BlockOps (ℕ → Sector)
memory = record { read = λ d s. d s; write = λ d s bytes t. if t == s then bytes else d t }

pub memory-IsStore : IsStore memory
memory-IsStore = record { read-write = λ d s t bytes. refl }

-- Sector `s` of the disk is filled with the byte `s`.
abbrev pub disk : ℕ → Sector
disk s = replicate 512 s

abbrev pub started : Cache (ℕ → Sector)
started = record {
  cells = replicate 64 blank;
  clock_idx = 0;
  hit = 0;
  miss = 0;
  fs_device = record {
    type = BlockType.filesys;
    size = 100;
    aux = disk;
    read_cnt = 0;
    write_cnt = 0;
  };
}

-- A file of 1000 bytes, in the sectors 40 and 41.
abbrev pub file : Inode
file = record {
  sector = 30;
  open_cnt = 1;
  removed = false;
  deny_write_cnt = 0;
  length = 1000;
  read_length = 1000;
  direct_blk_idx = 2;
  indirect_blk_idx = 0;
  double_indirect_blk_idx = 0;
  is_dir = false;
  parent = 1;
  ptrs = 40 ∷ 41 ∷ replicate 19 0;
}

abbrev pub c0 : Cache (ℕ → Sector)
c0 = init started

pub file-Indexed : Indexed memory 100 c0 disk file 2
file-Indexed = record {
  indirect = λ i lo hi lt. absurd (omega arith);
  outer = λ i lo lt. absurd (omega arith);
  inner = λ i lo lt. absurd (omega arith);
  room = omega arith;
}

sectors : (i : ℕ) → i < 2 → sector_of disk file i ≡ i + 40
unfolding sector_of
sectors zero lt = refl
sectors (suc zero) lt = refl
sectors (suc (suc i)) lt = absurd (omega arith)

pub length-replicate : (n s : ℕ) → length (replicate n s) ≡ n
length-replicate zero s = refl
length-replicate (suc n) s = omega (arith, length-replicate n s)

pub file-IsFile : IsFile memory 100 c0 disk file 1000
file-IsFile = record {
  ready = init-Ready memory started refl refl;
  indexed = file-Indexed;
  data_inside = λ i lt. omega (arith, sectors i (omega (arith, lt)), lt);
  full = λ s. length-replicate 512 s;
}

pub file-Apart : Apart disk file 2
file-Apart = record {
  unique = λ i j lt lt' e. omega (arith, sectors i lt, sectors j lt', e);
  indirect = λ i j lo hi lt lt'. absurd (omega arith);
  outer = λ i j lo lt lt'. absurd (omega arith);
  inner = λ i j lo lt lt'. absurd (omega arith);
}

pub file-Stores : Stores file
file-Stores = record {
  length_small = omega arith;
  direct_small = omega arith;
  indirect_small = omega arith;
  double_small = omega arith;
  parent_small = omega arith;
  ptrs_small = (omega arith, (omega arith, Small-replicate 19));
  ptrs_count = refl;
}

abbrev pub fs0 : Fs (ℕ → Sector) ℕ
fs0 = record {
  cache = c0;
  map = record { bitmap = record { bit_cnt = 100; bits = replicate 4 0 }; file = none };
}

-- The file of the free map: it takes all that is written.
abbrev pub file_write_at : ℕ → List ℕ → ℕ → ℕ → ℕ × ℕ
file_write_at f words size offset = (size, f)
