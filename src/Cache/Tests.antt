-- ===== src/Cache/Tests.antt =====
-- The cache over a disk in memory, and its theorems there.
use course_archive.Prelude.{
  ℕ, ◌≡◌, refl, some, [], ◌∷◌, ◌==◌, if◌then◌else◌, replicate, Returns, arith,
}
use course_archive.Block.{BlockType, Sector, BlockOps, IsStore}
use course_archive.Cache.{Cache, blank, init, evict, fetch, flush}
use course_archive.Cache.Evict.{Evicts, evict-Evicts}
use course_archive.Cache.Replace.{Fetches, fetch-Fetched}
use course_archive.Cache.Refine.{Ready}
use course_archive.Cache.Flush.{init-Ready, flush-Ready}
use course_archive.Cache.Run.{get, put, sync, spec, run, run_refines}

abbrev memory : BlockOps (ℕ → Sector)
memory = record { read = λ d s. d s; write = λ d s bytes t. if t == s then bytes else d t }

memory-IsStore : IsStore memory
memory-IsStore = record { read-write = λ d s t bytes. refl }

-- Sector `s` of the disk is filled with the byte `s`.
abbrev disk : ℕ → Sector
disk s = replicate 4 s

abbrev started : Cache (ℕ → Sector)
started = record {
  cells = replicate 64 blank;
  clock_idx = 5;
  hit = 0;
  miss = 0;
  fs_device = record {
    type = BlockType.filesys;
    size = 100;
    aux = disk;
    read_cnt = 0;
    write_cnt = 0;
  };
}

started-Ready : Ready memory 100 (init started) disk
started-Ready = init-Ready memory started refl refl

evict-Evicts_example : Returns (Evicts started) (evict started)
evict-Evicts_example = evict-Evicts started 9 refl (omega arith) (omega arith) refl

fetch-Fetched_example :
    Returns (Fetches memory memory-IsStore (init started) disk 7) (fetch memory (init started) 7)
fetch-Fetched_example =
    fetch-Fetched memory memory-IsStore 7 started-Ready.coherent started-Ready.idle
      (omega (arith, started-Ready.size))

flush-Ready_example :
    Returns
      (λ c'. Ready memory 100 c' disk × ((s : ℕ) → c'.fs_device.aux s ≡ disk s))
      (flush memory (init started))
flush-Ready_example = flush-Ready memory memory-IsStore started-Ready

run_refines_example :
    run memory (init started) (put 7 1 (9 ∷ 9 ∷ []) ∷ sync ∷ get 7 0 3 ∷ [])
    ≡ some (spec disk (put 7 1 (9 ∷ 9 ∷ []) ∷ sync ∷ get 7 0 3 ∷ []))
run_refines_example =
    run_refines memory memory-IsStore (put 7 1 (9 ∷ 9 ∷ []) ∷ sync ∷ get 7 0 3 ∷ []) started-Ready
      (omega arith)

spec_runs : spec disk (put 7 1 (9 ∷ 9 ∷ []) ∷ sync ∷ get 7 0 3 ∷ []) ≡ (7 ∷ 9 ∷ 9 ∷ []) ∷ []
unfolding spec
spec_runs = refl
