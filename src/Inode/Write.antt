-- ===== src/Inode/Write.antt =====
-- What a write into one sector of a file does to the file.
use course_archive.Prelude.{
  ℕ, ◌+◌, ◌-◌, ◌/◌, ◌%◌, ◌≤◌, ◌<◌, ◌≡◌, ◌≢◌, refl, sym, ◌∙◌, ap, Bool, true, false, ◌&&◌, List,
  ◌++◌, ◌==◌, ltb, leb, if◌then◌else◌, get_or, length, length-drop, length-take, length-append,
  take, drop, Bool-cases, inl, inr, arith, get_or-drop, get_or-at, get_or-append, get_or-take,
}
use course_archive.Block.{Sector}
use course_archive.Cache.{splice}
use course_archive.Cache.Refine.{update}
use course_archive.Inode.{Inode, get_word}
use course_archive.Inode.Sectors.{
  sector_of, get_word-at, sector_of-direct, sector_of-indirect, sector_of-double,
}
use course_archive.Inode.Read.{byte_at}

-- `i` lies in the block of `n` from `a` on.
abbrev pub within : ℕ → ℕ → ℕ → Bool
within a n i = leb a i && ltb i (a + n)

pub length-splice :
    (bytes : Sector) (o : ℕ) (new : List ℕ)
    → o + length new ≤ length bytes
    → length (splice bytes o new) ≡ length bytes
length-splice bytes o new le = omega (
  arith,
  length-append (take o bytes) (new ++ drop (o + length new) bytes),
  length-append new (drop (o + length new) bytes),
  length-take o bytes,
  length-drop (o + length new) bytes,
)

pub get_or-splice :
    (bytes : Sector) (o : ℕ) (new : List ℕ) (i : ℕ)
    → o + length new ≤ length bytes
    → get_or (splice bytes o new) i 0
      ≡ (if within o (length new) i then get_or new (i - o) 0 else get_or bytes i 0)
get_or-splice bytes o new i le = get_or-append (take o bytes) (new ++ tail) i 0 ∙ go
  where
    tail : List ℕ
    tail = drop (o + length new) bytes

    front : length (take o bytes) ≡ o
    front = omega (arith, length-take o bytes)

    go :
        (if ltb i (length (take o bytes))
          then get_or (take o bytes) i 0
          else get_or (new ++ tail) (i - length (take o bytes)) 0)
        ≡ (if within o (length new) i then get_or new (i - o) 0 else get_or bytes i 0)
    go = elim (Bool-cases (ltb i o)) [
      | inl before ↦
          let outside : within o (length new) i ≡ false = ground arith in
          rw (front, before, outside) (get_or-take bytes o i 0 (ground arith))
      | inr behind ↦
          rw (front, behind)
            (get_or-append new tail (i - o) 0 ∙ (elim (Bool-cases (ltb (i - o) (length new))) [
              | inl among ↦
                  let inside : within o (length new) i ≡ true = ground arith in
                  rw (among, inside) refl
              | inr after ↦
                  let outside : within o (length new) i ≡ false = ground arith in
                  rw (after, outside)
                    (get_or-drop bytes (o + length new) (i - o - length new) 0
                      ∙ get_or-at bytes 0 {j = i} (ground arith))
            ]))
    ]

-- The sectors with data are different from each other and from those with numbers.
pub record Apart (f : ℕ → Sector) (x : Inode) (count : ℕ) : Type 0 where
  pub unique : (i j : ℕ) → i < count → j < count → sector_of f x i ≡ sector_of f x j → i ≡ j
  pub indirect :
      (i j : ℕ)
      → 10 ≤ i
      → i < 1290
      → i < count
      → j < count
      → get_or x.ptrs ((i - 10) / 128 + 10) 0 ≢ sector_of f x j
  pub outer : (i j : ℕ) → 1290 ≤ i → i < count → j < count → get_or x.ptrs 20 0 ≢ sector_of f x j
  pub inner :
      (i j : ℕ)
      → 1290 ≤ i
      → i < count
      → j < count
      → get_word (f (get_or x.ptrs 20 0)) ((i - 1290) / 128) ≢ sector_of f x j

pub update-ne : (f : ℕ → Sector) (k : ℕ) (b : Sector) (s : ℕ) → s ≢ k → update f k b s ≡ f s
update-ne f k b s ne = let other : (s == k) ≡ false = ground arith in rw other refl

-- Another content in the data sector with the number `j`.
module _ {f : ℕ → Sector} {x : Inode} {count : ℕ} (a : Apart f x count) (j : ℕ) (lt : j < count)
    (b : Sector) where
  abbrev changed : ℕ → Sector
  changed = update f (sector_of f x j) b

  pub number :
      (i : ℕ)
      → 1290 ≤ i
      → i < count
      → get_word (changed (get_or x.ptrs 20 0)) ((i - 1290) / 128)
        ≡ get_word (f (get_or x.ptrs 20 0)) ((i - 1290) / 128)
  number i lo li = get_word-at (update-ne f (sector_of f x j) b _ (a.outer i j lo li lt)) refl

  pub sector_of-changed : (i : ℕ) → i < count → sector_of changed x i ≡ sector_of f x i
  sector_of-changed i li = elim (Bool-cases (ltb i 10)) [
    | inl direct ↦
        sector_of-direct changed x i (ground arith) ∙ sym (sector_of-direct f x i (ground arith))
    | inr further ↦ elim (Bool-cases (ltb i 1290)) [
      | inl near ↦
          let lo : 10 ≤ i = ground arith in
          let hi : i < 1290 = ground arith in
          sector_of-indirect changed x i lo hi
          ∙ get_word-at (update-ne f (sector_of f x j) b _ (a.indirect i j lo hi li lt)) refl
          ∙ sym (sector_of-indirect f x i lo hi)
      | inr far ↦
          let lo : 1290 ≤ i = ground arith in
          sector_of-double changed x i lo
          ∙ get_word-at
              (ap changed (number i lo li)
                ∙ update-ne f (sector_of f x j) b _ (a.inner i j lo li lt))
              refl
          ∙ sym (sector_of-double f x i lo)
    ]
  ]

  pub Apart-changed : Apart changed x count
  Apart-changed = record {
    unique = λ i k li lk e.
        a.unique i k li lk (sym (sector_of-changed i li) ∙ e ∙ sector_of-changed k lk);
    indirect = λ i k lo hi li lk e. a.indirect i k lo hi li lk (e ∙ sector_of-changed k lk);
    outer = λ i k lo li lk e. a.outer i k lo li lk (e ∙ sector_of-changed k lk);
    inner =
        λ i k lo li lk e. a.inner i k lo li lk (sym (number i lo li) ∙ e ∙ sector_of-changed k lk);
  }

-- Offsets in one sector.
same_sector :
    (off len i : ℕ)
    → i / 512 ≡ off / 512
    → (within (off % 512) len (i % 512) ≡ within off len i) × (i % 512 - off % 512 ≡ i - off)
same_sector off len i e = (both, omega (arith, e))
  where
    both : within (off % 512) len (i % 512) ≡ within off len i
    both = elim (Bool-cases (within off len i)) [
      | inl a ↦
          let b : within (off % 512) len (i % 512) ≡ true = ground (arith, e, a) in rw (a, b) refl
      | inr a ↦
          let b : within (off % 512) len (i % 512) ≡ false = ground (arith, e, a) in rw (a, b) refl
    ]

other_sector :
    (off len i : ℕ)
    → (i / 512 == off / 512) ≡ false
    → off % 512 + len ≤ 512
    → within off len i ≡ false
other_sector off len i ne fits = ground arith

update_self : (f : ℕ → Sector) (k : ℕ) (b : Sector) → update f k b k ≡ b
update_self f k b = let same : (k == k) ≡ true = ground arith in rw same refl

-- The bytes of the file after a write inside one sector.
pub byte_at-changed :
    {f : ℕ → Sector} {x : Inode} {count : ℕ} (a : Apart f x count) (off : ℕ) (new : List ℕ)
    → off / 512 < count
    → off % 512 + length new ≤ 512
    → ((s : ℕ) → length (f s) ≡ 512)
    → (i : ℕ) → i / 512 < count
    → byte_at
        (update f
          (sector_of f x (off / 512))
          (splice (f (sector_of f x (off / 512))) (off % 512) new))
        x
        i
      ≡ (if within off (length new) i then get_or new (i - off) 0 else byte_at f x i)
byte_at-changed {f} {x} {count} a off new lt fits full i li =
    ap (λ (s : ℕ). get_or (f1 s) (i % 512) 0) (sector_of-changed a (off / 512) lt b (i / 512) li)
    ∙ elim (Bool-cases (i / 512 == off / 512)) [
      | inl same ↦
          let e : i / 512 ≡ off / 512 = ground arith in
          let (test, place) = same_sector off (length new) i e in
          ap (λ (j : ℕ). get_or (f1 (sector_of f x j)) (i % 512) 0) e
          ∙ ap (λ (c : Sector). get_or c (i % 512) 0) (update_self f k b)
          ∙ get_or-splice (f k) (off % 512) new (i % 512) (omega (arith, fits, full k))
          ∙ rw (test, place, e) refl
      | inr other ↦
          let outside : within off (length new) i ≡ false =
            other_sector off (length new) i other fits in
          rw outside (
            ap (λ (c : Sector). get_or c (i % 512) 0)
              (update-ne f k b (sector_of f x (i / 512))
                λ e. ground (arith, a.unique (i / 512) (off / 512) li lt e)))
    ]
  where
    k : ℕ
    k = sector_of f x (off / 512)

    b : Sector
    b = splice (f k) (off % 512) new

    f1 : ℕ → Sector
    f1 = update f k b
