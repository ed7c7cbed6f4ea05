-- ===== src/FreeMap/Allocate.antt =====
-- What allocation and release do to the set of used sectors.
use course_archive.Prelude.{
  ℕ, ◌+◌, ◌≤◌, ◌<◌, ◌≡◌, ◌≢◌, refl, ◌∙◌, ◌⊎◌, inl, inr, Bool, true, false, not, Option, none, some,
  List, ◌==◌, leb, if◌then◌else◌, Returns, Returns-at, Bool-cases, arith,
}
use course_archive.Bitmap.{Bitmap, byte_cnt, bitmap_error}
use course_archive.Bitmap.View.{IsValid, bit, Shows}
use course_archive.Bitmap.Range.{filled, set_multiple-Shows, Verdict, all-Verdict}
use course_archive.Bitmap.Scan.{Group, IsFirst, NoGroup, Flipped, scan_and_flip-Flipped}
use course_archive.FreeMap.{FreeMap, bitmap_write, commit, allocate, save, release}

module _ {File : Type 0} (file_write_at : File → List ℕ → ℕ → ℕ → ℕ × File) where
  -- The words of `b` were written to the map's file in full, if the file is open.
  abbrev pub Written : Bitmap → Option File → Option File → Type 0
  Written b none g = g ≡ none
  Written b (some f) g =
      let (n, f') = file_write_at f b.bits (byte_cnt b.bit_cnt) 0 in
      (n ≡ byte_cnt b.bit_cnt) × (g ≡ some f')

  -- The file is open, and the attempt to write the words of `b` to it wrote less or more.
  abbrev pub NotWritten : Bitmap → Option File → Option File → Type 0
  NotWritten b none g = ⊥
  NotWritten b (some f) g =
      let (n, f') = file_write_at f b.bits (byte_cnt b.bit_cnt) 0 in
      (n ≢ byte_cnt b.bit_cnt) × (g ≡ some f')

  abbrev pub Allocated : FreeMap File → ℕ → Option ℕ × FreeMap File → Type 0
  Allocated s cnt (some sector, s') =
      IsFirst (bit s.bitmap) s.bitmap.bit_cnt 0 cnt false sector
      × Shows s.bitmap s'.bitmap (filled sector cnt true s.bitmap)
      × Written s'.bitmap s.file s'.file
  Allocated s cnt (none, s') =
      Shows s.bitmap s'.bitmap (bit s.bitmap)
      × ((NoGroup (bit s.bitmap) s.bitmap.bit_cnt 0 cnt false × (s'.file ≡ s.file))
          ⊎ ((sector : ℕ) × (b : Bitmap) × IsFirst (bit s.bitmap) s.bitmap.bit_cnt 0 cnt false
                sector
              × Shows s.bitmap b (filled sector cnt true s.bitmap)
              × NotWritten b s.file s'.file))

  module _ (s : FreeMap File) (cnt sector : ℕ) (v : IsValid s.bitmap)
      (g : IsFirst (bit s.bitmap) s.bitmap.bit_cnt 0 cnt false sector) {b : Bitmap}
      (shows : Shows s.bitmap b (filled sector cnt true s.bitmap)) where
    -- Taking the group back leaves the bits as they were.
    undo : (b' : Bitmap) → Shows b b' (filled sector cnt false b) → Shows s.bitmap b' (bit s.bitmap)
    undo b' t = record {
      valid = t.valid;
      size = t.size ∙ shows.size;
      shown = λ j. ground (arith, t.shown j, shows.shown j, g.group j);
    }

    commit-Allocated :
        (file : Option File)
        → s.file ≡ file
        → Returns (Allocated s cnt) (commit file_write_at b file cnt sector)
    unfolding commit
    commit-Allocated none e = (_, refl, (g, shows, rw e refl))
    commit-Allocated (some f) e = branch (bitmap_write file_write_at b f).0 refl
      where
        f' : File
        f' = (bitmap_write file_write_at b f).1

        written : ℕ
        written = (file_write_at f b.bits (byte_cnt b.bit_cnt) 0).0

        branch :
            (done : Bool)
            → (written == byte_cnt b.bit_cnt) ≡ done
            → Returns (Allocated s cnt) (commit file_write_at b (some f) cnt sector)
        branch true ok = (
          (some sector, record { bitmap = b; file = some f' }),
          rw ok refl,
          (g, shows, rw e (ground arith, refl)),
        )
        branch false failed =
            let (b', eb, t) =
              set_multiple-Shows {b = b} shows.valid sector cnt
                (omega (arith, g.inside, shows.size)) false in
            (
              (none, record { bitmap = b'; file = some f' }),
              rw (failed, eb),
              (undo b' t, inr (sector, b, g, shows, rw e (ground arith, refl))),
            )

  -- On a valid map `free_map_allocate` does not panic. If it returns true, `*sectorp` is the first
  -- run of `cnt` free sectors, exactly these become used, and the map with them used was written to
  -- its file, if that is open. If it returns false, no sector changes, and there is no such run and
  -- the file is as it was, or the file is open and writing to it the map with the first run used
  -- did not write all its bytes.
  pub allocate-Allocated :
      (s : FreeMap File) (cnt : ℕ)
      → IsValid s.bitmap
      → Returns (Allocated s cnt) (allocate file_write_at s cnt)
  unfolding allocate
  allocate-Allocated s cnt v =
      let (p, e, f) = scan_and_flip-Flipped {b = s.bitmap} v 0 cnt (omega arith) false in
      rw e (finish p.0 p.1 f)
    where
      finish :
          (r : ℕ) (b : Bitmap)
          → Flipped s.bitmap 0 cnt false (r, b)
          → Returns (Allocated s cnt) (
              if r == bitmap_error
              then some (none, record s { bitmap = b })
              else commit file_write_at b s.file cnt r)
      finish r b (inl (g, shows)) =
          let ne : (r == bitmap_error) ≡ false = ground (arith, g.inside, v.small) in
          rw ne (commit-Allocated s cnt r v g shows s.file refl)
      finish r b (inr (e, same, full)) =
          let eq : (r == bitmap_error) ≡ true = ground arith in
          rw eq (
            (none, record s { bitmap = b }),
            refl,
            (rw same (record { valid = v; size = refl; shown = λ j. refl }), inl (full, refl)),
          )

  -- Two successful allocations, one after the other, give runs that do not overlap.
  pub allocate-Disjoint :
      (s s' s'' : FreeMap File) (c c' r r' : ℕ)
      → IsValid s.bitmap
      → allocate file_write_at s c ≡ some (some r, s')
      → allocate file_write_at s' c' ≡ some (some r', s'')
      → 0 < c
      → 0 < c'
      → (r + c ≤ r') ⊎ (r' + c' ≤ r)
  allocate-Disjoint s s' s'' c c' r r' v e e' pos pos' =
      let (g, shows, _) = first_of_run in
      let (g', shows', _) = second_of_run shows.valid in
      elim (Bool-cases (leb (r + c) r')) [
        | inl before ↦ inl (ground arith)
        | inr overlap ↦ elim (Bool-cases (leb (r' + c') r)) [
          | inl after ↦ inr (ground arith)
          | inr overlap' ↦ elim (Bool-cases (leb r r')) [
            | inl low ↦ absurd (ground (arith, g'.group r', shows.shown r'))
            | inr low ↦ absurd (ground (arith, g'.group r, shows.shown r))
          ]
        ]
      ]
    where
      result :
          (t : FreeMap File) (cnt q : ℕ) (t' : FreeMap File)
          → allocate file_write_at t cnt ≡ some (some q, t')
          → IsValid t.bitmap
          → Allocated t cnt (some q, t')
      result t cnt q t' eq valid =
          Returns-at (Allocated t cnt) _ (some q, t') (allocate-Allocated t cnt valid) eq

      first_of_run : Allocated s c (some r, s')
      first_of_run = result s c r s' e v

      second_of_run : IsValid s'.bitmap → Allocated s' c' (some r', s'')
      second_of_run valid = result s' c' r' s'' e' valid

  -- With the map's file open, `free_map_release` of sectors inside a valid map that are all in use
  -- does not panic, makes exactly these free and writes the words of the map that results to the
  -- file.
  pub release-Shows :
      (s : FreeMap File) (sector cnt : ℕ) (f : File)
      → IsValid s.bitmap
      → s.file ≡ some f
      → sector + cnt ≤ s.bitmap.bit_cnt
      → Group (bit s.bitmap) sector cnt true
      → Returns
          (λ s'.
            Shows s.bitmap s'.bitmap (filled sector cnt false s.bitmap)
            × (s'.file ≡ some (file_write_at f s'.bitmap.bits (byte_cnt s'.bitmap.bit_cnt) 0).1))
          (release file_write_at s sector cnt)
  unfolding release save
  release-Shows s sector cnt f v e h used =
      let (r, er, w) = all-Verdict {b = s.bitmap} v sector cnt h in
      let (b, eb, shows) = set_multiple-Shows {b = s.bitmap} v sector cnt h false in
      rw (er, yes_used r w, eb, e)
        (record { bitmap = b; file = some (bitmap_write file_write_at b f).1 }, refl, (shows, refl))
    where
      yes_used : (r : Bool) → Verdict (bit s.bitmap) sector cnt false (not r) → r ≡ true
      yes_used true w = refl
      yes_used false (j, low, high, off) = cc (used j low high)

  -- Releasing sectors of which one is free fails the assertion.
  pub release-none :
      (s : FreeMap File) (sector cnt j : ℕ)
      → IsValid s.bitmap
      → sector + cnt ≤ s.bitmap.bit_cnt
      → sector ≤ j
      → j < sector + cnt
      → bit s.bitmap j ≡ false
      → release file_write_at s sector cnt ≡ none
  unfolding release
  release-none s sector cnt j v h low high off =
      let (r, er, w) = all-Verdict {b = s.bitmap} v sector cnt h in rw (er, not_used r w)
    where
      not_used : (r : Bool) → Verdict (bit s.bitmap) sector cnt false (not r) → r ≡ false
      not_used true w = cc (w j low high)
      not_used false w = refl
