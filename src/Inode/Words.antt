-- ===== src/Inode/Words.antt =====
-- Numbers of 32 bits in a sector, the lowest byte first, and the structure of an inode on disk.
use course_archive.Prelude.{
  ℕ, zero, suc, ◌+◌, ◌*◌, ◌/◌, ◌%◌, ◌^◌, ◌<◌, ◌≡◌, refl, sym, ◌∙◌, ap, Bool, true, false, not, List,
  [], ◌∷◌, ◌++◌, ◌==◌, if◌then◌else◌, get_or, length, replicate, arith, get_or-at, tabulate,
  take-tabulate, tabulate-ext, get_or-append, take, take-length, length-append, ltb, lt→ltb,
}
use course_archive.Block.{Sector}
use course_archive.Cache.{splice}
use course_archive.Inode.{Inode, get_word, inode_block_ptrs}

abbrev pub word_bytes : ℕ → List ℕ → List ℕ
word_bytes w rest = w % 256 ∷ w / 256 % 256 ∷ w / 65536 % 256 ∷ w / 16777216 % 256 ∷ rest

-- An array of numbers.
unfoldable pub words_bytes : List ℕ → List ℕ
words_bytes [] = []
words_bytes (w ∷ ws) = word_bytes w (words_bytes ws)

-- `block.ptrs[i] = w`
abbrev pub put_word : Sector → ℕ → ℕ → Sector
put_word block i w = splice block (4 * i) (word_bytes w [])

-- INODE_MAGIC
abbrev pub inode_magic : ℕ
inode_magic = 0x494e_4f44

abbrev pub of_bool : Bool → ℕ
of_bool b = if b then 1 else 0

-- `struct inode_disk`: `is_dir` is a byte, with three of padding.
abbrev pub disk_words : Inode → List ℕ
disk_words x =
    x.length
    ∷ inode_magic
    ∷ x.direct_blk_idx
    ∷ x.indirect_blk_idx
    ∷ x.double_indirect_blk_idx
    ∷ of_bool x.is_dir
    ∷ x.parent
    ∷ (x.ptrs ++ replicate 100 0)

abbrev pub disk_inode : Inode → Sector
disk_inode x = words_bytes (disk_words x)

-- The `n` numbers from the index `i` on.
abbrev pub get_words : Sector → ℕ → ℕ → List ℕ
get_words bytes i n = tabulate (get_word bytes) i n

-- What `inode_open` reads, for the sector and with one opener.
abbrev pub from_disk : ℕ → Sector → Inode
from_disk sector data' = record {
  sector = sector;
  open_cnt = 1;
  removed = false;
  deny_write_cnt = 0;
  length = get_word data' 0;
  read_length = get_word data' 0;
  direct_blk_idx = get_word data' 2;
  indirect_blk_idx = get_word data' 3;
  double_indirect_blk_idx = get_word data' 4;
  is_dir = not (get_or data' 20 0 == 0);
  parent = get_word data' 6;
  ptrs = get_words data' 7 inode_block_ptrs;
}

-- Every number is below 2 ^ 32.
abbrev pub Small : List ℕ → Type 0
Small [] = Unit
Small (w ∷ ws) = (w < 2 ^ 32) × Small ws

word-value :
    (w : ℕ)
    → w < 2 ^ 32
    → w % 256 + 256 * (w / 256 % 256) + 256 ^ 2 * (w / 65536 % 256) + 256 ^ 3 * (w / 16777216 % 256)
      ≡ w
word-value w lt = omega arith

get_or-further : (w : ℕ) (l : List ℕ) (j : ℕ) → get_or (word_bytes w l) (j + 4) 0 ≡ get_or l j 0
get_or-further w l j = get_or-at (word_bytes w l) 0 {j = suc (suc (suc (suc j)))} (omega arith)

get_word-further : (w : ℕ) (l : List ℕ) (i : ℕ) → get_word (word_bytes w l) (suc i) ≡ get_word l i
unfolding get_word
get_word-further w l i = rw (e0, e 1, e 2, e 3) refl
  where
    e : (k : ℕ) → get_or (word_bytes w l) (4 * suc i + k) 0 ≡ get_or l (4 * i + k) 0
    e k =
        get_or-at (word_bytes w l) 0 {j = (4 * i + k) + 4} (omega arith)
        ∙ get_or-further w l (4 * i + k)

    e0 : get_or (word_bytes w l) (4 * suc i) 0 ≡ get_or l (4 * i) 0
    e0 = get_or-at (word_bytes w l) 0 {j = (4 * i) + 4} (omega arith) ∙ get_or-further w l (4 * i)

-- Reading an array of numbers.
pub get_word-words :
    (ws : List ℕ) (i : ℕ) → Small ws → i < length ws → get_word (words_bytes ws) i ≡ get_or ws i 0
unfolding get_word words_bytes
get_word-words [] i small lt = absurd (omega arith)
get_word-words (w ∷ ws) zero (small, _) lt = word-value w small
get_word-words (w ∷ ws) (suc i) (_, small) lt =
    get_word-further w (words_bytes ws) i ∙ get_word-words ws i small (omega arith)

Small-at : (ws : List ℕ) → Small ws → (vs : List ℕ) → Small vs → Small (ws ++ vs)
Small-at [] small vs more = more
Small-at (w ∷ ws) (now, small) vs more = (now, Small-at ws small vs more)

pub Small-replicate : (n : ℕ) → Small (replicate n 0)
Small-replicate zero = tt
Small-replicate (suc n) = (omega arith, Small-replicate n)

-- An inode whose fields are numbers of 32 bits.
pub record Stores (x : Inode) : Type 0 where
  pub length_small : x.length < 2 ^ 32
  pub direct_small : x.direct_blk_idx < 2 ^ 32
  pub indirect_small : x.indirect_blk_idx < 2 ^ 32
  pub double_small : x.double_indirect_blk_idx < 2 ^ 32
  pub parent_small : x.parent < 2 ^ 32
  pub ptrs_small : Small x.ptrs
  pub ptrs_count : length x.ptrs ≡ inode_block_ptrs

disk_words-Small : (x : Inode) → Stores x → Small (disk_words x)
disk_words-Small x h = (
  h.length_small,
  (
    omega arith,
    (
      h.direct_small,
      (
        h.indirect_small,
        (
          h.double_small,
          (
            ground arith,
            (h.parent_small, Small-at x.ptrs h.ptrs_small (replicate 100 0) (Small-replicate 100)),
          ),
        ),
      ),
    ),
  ),
)

disk_word :
    (x : Inode) → Stores x → (i : ℕ) → i < 7 → get_word (disk_inode x) i ≡ get_or (disk_words x) i 0
disk_word x h i lt = get_word-words (disk_words x) i (disk_words-Small x h) (omega arith)

disk_ptr :
    (x : Inode)
    → Stores x
    → (k : ℕ) → k < length x.ptrs
    → get_word (disk_inode x) (7 + k) ≡ get_or x.ptrs (0 + k) 0
disk_ptr x h k lt =
    let inside : ltb k (length x.ptrs) ≡ true = lt→ltb k (length x.ptrs) lt in
    get_word-words (disk_words x) (7 + k) (disk_words-Small x h)
      (omega (arith, length-append x.ptrs (replicate 100 0)))
    ∙ get_or-at (disk_words x) 0 {j = suc (suc (suc (suc (suc (suc (suc k))))))} (omega arith)
    ∙ get_or-append x.ptrs (replicate 100 0) k 0
    ∙ rw inside (get_or-at x.ptrs 0 {j = 0 + k} (omega arith))

get_words-ptrs :
    (x : Inode) → Stores x → (n : ℕ) → n ≡ length x.ptrs → get_words (disk_inode x) 7 n ≡ x.ptrs
get_words-ptrs x h n e =
    tabulate-ext (get_word (disk_inode x)) (λ i. get_or x.ptrs i 0) 7 0 n
      (λ k lt. disk_ptr x h k (omega (arith, e)))
    ∙ sym (take-tabulate x.ptrs n 0 (omega (arith, e)))
    ∙ ap (λ (k : ℕ). take k x.ptrs) e
    ∙ take-length x.ptrs

is_dir-byte : (b : Bool) → not (of_bool b % 256 == 0) ≡ b
is_dir-byte true = refl
is_dir-byte false = refl

-- What is read back is the inode as it is opened first.
pub from_disk-disk_inode :
    (x : Inode)
    → Stores x
    → from_disk x.sector (disk_inode x)
      ≡ record x { open_cnt = 1; removed = false; deny_write_cnt = 0; read_length = x.length }
unfolding words_bytes
from_disk-disk_inode x h =
    rw
      (
        disk_word x h 0 (omega arith),
        disk_word x h 2 (omega arith),
        disk_word x h 3 (omega arith),
        disk_word x h 4 (omega arith),
        disk_word x h 6 (omega arith),
        get_words-ptrs x h inode_block_ptrs (sym h.ptrs_count),
        is_dir-byte x.is_dir,
      )
      refl
