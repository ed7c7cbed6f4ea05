-- ===== src/Inode/Sectors.antt =====
-- Where the bytes of an inode are: `byte_to_sector` follows the numbers that the sectors hold.
use mathlib.Core.Path.{subst}
use course_archive.Prelude.{
  ℕ, ◌+◌, ◌-◌, ◌*◌, ◌/◌, ◌%◌, ◌≤◌, ◌<◌, ◌≡◌, refl, sym, ◌∙◌, ap, true, false, some, ltb, leb,
  if◌then◌else◌, get_or, Returns, Bool-cases, inl, inr, arith, lt→ltb,
}
use course_archive.Block.{Sector, BlockOps}
use course_archive.Cache.{Cache}
use course_archive.Cache.Refine.{Ready}
use course_archive.Inode.{
  Inode, get_word, device_read, indirect_sector, double_indirect_sector, byte_to_sector,
}

-- The sector with the number `i` of an inode, in sectors `f`.
unfoldable pub sector_of : (ℕ → Sector) → Inode → ℕ → ℕ
sector_of f x i =
    if ltb i 10
    then get_or x.ptrs i 0
    else (if ltb i 1290
        then get_word (f (get_or x.ptrs ((i - 10) / 128 + 10) 0)) ((i - 10) % 128)
        else get_word (f (get_word (f (get_or x.ptrs 20 0)) ((i - 1290) / 128))) ((i - 1290) % 128))

pub get_word-at : {b b' : Sector} {i j : ℕ} → b ≡ b' → i ≡ j → get_word b i ≡ get_word b' j
get_word-at e e' = rw (e, e') refl

module _ (f : ℕ → Sector) (x : Inode) (i : ℕ) where
  pub sector_of-direct : i < 10 → sector_of f x i ≡ get_or x.ptrs i 0
  unfolding sector_of
  sector_of-direct lt = let a : ltb i 10 ≡ true = ground arith in rw a refl

  pub sector_of-indirect :
      10 ≤ i
      → i < 1290
      → sector_of f x i ≡ get_word (f (get_or x.ptrs ((i - 10) / 128 + 10) 0)) ((i - 10) % 128)
  unfolding sector_of
  sector_of-indirect lo hi =
      let a : ltb i 10 ≡ false = ground arith in
      let b : ltb i 1290 ≡ true = ground arith in rw (a, b) refl

  pub sector_of-double :
      1290 ≤ i
      → sector_of f x i
        ≡ get_word (f (get_word (f (get_or x.ptrs 20 0)) ((i - 1290) / 128))) ((i - 1290) % 128)
  unfolding sector_of
  sector_of-double lo =
      let a : ltb i 10 ≡ false = ground arith in
      let b : ltb i 1290 ≡ false = ground arith in rw (a, b) refl

module _ {Disk : Type 0} (ops : BlockOps Disk) where
  -- A sector of the device that is up to date there.
  abbrev pub Settled : ℕ → Cache Disk → (ℕ → Sector) → ℕ → Type 0
  Settled n c f s = (s < n) × (ops.read c.fs_device.aux s ≡ f s)

  -- The sectors with the numbers of the first `count` sectors of the file are.
  pub record Indexed (n : ℕ) (c : Cache Disk) (f : ℕ → Sector) (x : Inode) (count : ℕ)
      : Type 0 where
    pub indirect :
        (i : ℕ)
        → 10 ≤ i
        → i < 1290
        → i < count
        → Settled n c f (get_or x.ptrs ((i - 10) / 128 + 10) 0)
    pub outer : (i : ℕ) → 1290 ≤ i → i < count → Settled n c f (get_or x.ptrs 20 0)
    pub inner :
        (i : ℕ)
        → 1290 ≤ i
        → i < count
        → Settled n c f (get_word (f (get_or x.ptrs 20 0)) ((i - 1290) / 128))
    pub room : count ≤ 1290 + 128 * 128

  -- The cache after reads of the device beside it: only the device's statistics differ.
  pub record Reread (n : ℕ) (f : ℕ → Sector) (c c' : Cache Disk) : Type 0 where
    pub ready : Ready ops n c' f
    pub same : c'.fs_device.aux ≡ c.fs_device.aux

  pub Reread-Settled :
      {n : ℕ} {f : ℕ → Sector} {c c' : Cache Disk} (s : ℕ)
      → Reread n f c c'
      → Settled n c f s
      → Settled n c' f s
  Reread-Settled s u (lt, now) = (lt, ap (λ (d : Disk). ops.read d s) u.same ∙ now)

  device_read-Reread :
      {n : ℕ} {c : Cache Disk} {f : ℕ → Sector} (s : ℕ)
      → Ready ops n c f
      → Settled n c f s
      → Returns (λ (bytes, c'). (bytes ≡ f s) × Reread n f c c') (device_read ops c s)
  device_read-Reread {n} {c} {f} s r (lt, now) =
      rw (lt→ltb s c.fs_device.size (omega (arith, r.size, lt))) (
        _,
        refl,
        (
          now,
          record {
            ready = record {
              coherent =
                  let h = r.coherent in
                  record {
                    count = h.count;
                    hand = h.hand;
                    own = h.own;
                    unique = h.unique;
                    cached = h.cached;
                    dirty_valid = h.dirty_valid;
                    present = h.present;
                    stored = h.stored;
                  };
              idle = r.idle;
              size = r.size;
            };
            same = refl;
          },
        ),
      )

  Reread-trans :
      {n : ℕ} {f : ℕ → Sector} {c c1 c2 : Cache Disk}
      → Reread n f c c1
      → Reread n f c1 c2
      → Reread n f c c2
  Reread-trans u v = record { ready = v.ready; same = v.same ∙ u.same }

  module _ (c : Cache Disk) (x : Inode) (pos : ℕ) where
    indirect-run :
        (b : Sector) (c1 : Cache Disk)
        → device_read ops c (get_or x.ptrs (pos / 65536 + 10) 0) ≡ some (b, c1)
        → indirect_sector ops c x pos ≡ some (get_word b (pos % 65536 / 512), c1)
    unfolding indirect_sector
    indirect-run b c1 e = rw e refl

    double-run :
        (b b' : Sector) (c1 c2 : Cache Disk)
        → device_read ops c (get_or x.ptrs 20 0) ≡ some (b, c1)
        → ltb (pos / 65536) 128 ≡ true
        → device_read ops c1 (get_word b (pos / 65536)) ≡ some (b', c2)
        → double_indirect_sector ops c x pos ≡ some (get_word b' (pos % 65536 / 512), c2)
    unfolding double_indirect_sector
    double-run b b' c1 c2 e near e' = rw (e, near, e') refl

  module _ (c : Cache Disk) (x : Inode) (len pos : ℕ) where
    to-indirect :
        leb len pos ≡ false
        → ltb (pos / 512) 10 ≡ false
        → ltb (pos / 512) 1290 ≡ true
        → byte_to_sector ops c x len pos ≡ indirect_sector ops c x (pos - 5120)
    unfolding byte_to_sector
    to-indirect there further near = rw (there, further, near) refl

    to-double :
        leb len pos ≡ false
        → ltb (pos / 512) 10 ≡ false
        → ltb (pos / 512) 1290 ≡ false
        → byte_to_sector ops c x len pos ≡ double_indirect_sector ops c x (pos - 660480)
    unfolding byte_to_sector
    to-double there further far = rw (there, further, far) refl

  module _ {n : ℕ} {c : Cache Disk} {f : ℕ → Sector} {x : Inode} {count : ℕ} (r : Ready ops n c f)
      (h : Indexed n c f x count) where
    indirect-of :
        (pos i : ℕ)
        → i ≡ pos / 512 + 10
        → i < count
        → i < 1290
        → Returns (λ (s, c'). (s ≡ sector_of f x i) × Reread n f c c') (indirect_sector ops c x pos)
    indirect-of pos i e lt near =
        let place : (i - 10) / 128 + 10 ≡ pos / 65536 + 10 = omega (arith, e) in
        let slot : pos % 65536 / 512 ≡ (i - 10) % 128 = omega (arith, e) in
        let ((b, c1), run, (same, reread)) =
          device_read-Reread (get_or x.ptrs (pos / 65536 + 10) 0) r (
            subst (λ j. Settled n c f (get_or x.ptrs j 0)) place
              (h.indirect i (omega (arith, e)) near lt)) in
        (
          (get_word b (pos % 65536 / 512), c1),
          indirect-run c x pos b c1 run,
          (
            get_word-at (same ∙ ap f (ap (λ j. get_or x.ptrs j 0) (sym place))) slot
                ∙ sym (sector_of-indirect f x i (omega (arith, e)) near),
            reread,
          ),
        )

    double-of :
        (pos i : ℕ)
        → i ≡ pos / 512 + 1290
        → i < count
        → Returns
            (λ (s, c'). (s ≡ sector_of f x i) × Reread n f c c')
            (double_indirect_sector ops c x pos)
    double-of pos i e lt =
        let place : (i - 1290) / 128 ≡ pos / 65536 = omega (arith, e) in
        let slot : pos % 65536 / 512 ≡ (i - 1290) % 128 = omega (arith, e) in
        let near : ltb (pos / 65536) 128 ≡ true =
          lt→ltb (pos / 65536) 128 (omega (arith, e, lt, h.room)) in
        let beyond : 1290 ≤ i = omega (arith, e) in
        let ((b, c1), run, (same, u)) =
          device_read-Reread (get_or x.ptrs 20 0) r (h.outer i beyond lt) in
        let number : get_word b (pos / 65536)
            ≡ get_word (f (get_or x.ptrs 20 0)) ((i - 1290) / 128) =
          get_word-at same (sym place) in
        let ((b', c2), run', (same', v)) = device_read-Reread (get_word b (pos / 65536)) u.ready (
          Reread-Settled (get_word b (pos / 65536)) u
            (subst (Settled n c f) (sym number) (h.inner i beyond lt))) in
        (
          (get_word b' (pos % 65536 / 512), c2),
          double-run c x pos b b' c1 c2 run near run',
          (
            get_word-at (same' ∙ ap f number) slot ∙ sym (sector_of-double f x i beyond),
            Reread-trans u v,
          ),
        )

    -- On a coherent cache `byte_to_sector` does not panic and returns the sector of a byte inside the
    -- file, if that sector has a place in the index and if each index sector that holds sector
    -- numbers is inside the device and up to date there; the cache stays coherent with the same
    -- contents, and the device keeps its sectors.
    pub byte_to_sector-of :
        (len pos : ℕ)
        → pos < len
        → pos / 512 < count
        → Returns
            (λ (s, c'). (s ≡ sector_of f x (pos / 512)) × Reread n f c c')
            (byte_to_sector ops c x len pos)
    unfolding byte_to_sector sector_of
    byte_to_sector-of len pos lt within =
        let there : leb len pos ≡ false = ground arith in
        elim (Bool-cases (ltb (pos / 512) 10)) [
          | inl direct ↦
              rw (there, direct)
                ((get_or x.ptrs (pos / 512) 0, c), refl, (refl, record { ready = r; same = refl }))
          | inr further ↦ elim (Bool-cases (ltb (pos / 512) 1290)) [
            | inl near ↦
                let (q, run, same) =
                  indirect-of (pos - 5120) (pos / 512) (ground (arith, further)) within
                    (ground (arith, near)) in
                (q, to-indirect c x len pos there further near ∙ run, same)
            | inr far ↦
                let (q, run, same) =
                  double-of (pos - 660480) (pos / 512) (ground (arith, far)) within in
                (q, to-double c x len pos there further far ∙ run, same)
          ]
        ]
