-- ===== src/Inode/Read.antt =====
-- `inode_read_at` returns bytes of the file.
use mathlib.Core.Path.{subst}
use Prim.Native.Nat.{min}
use course_archive.Prelude.{
  ℕ, zero, suc, ◌+◌, ◌-◌, ◌/◌, ◌%◌, ◌≤◌, ◌<◌, ◌≡◌, ◌≢◌, refl, sym, ◌∙◌, ap, true, false, some, List,
  [], ◌++◌, ◌==◌, leb, get_or, length, length-drop, take, drop, Returns, Bool-cases, inl, inr,
  arith, tabulate, tabulate-ext, tabulate-append, tabulate-at, take-tabulate, get_or-drop,
  get_or-at,
}
use course_archive.Block.{Sector, BlockOps, IsStore}
use course_archive.Cache
use course_archive.Cache.{Cache}
use course_archive.Cache.Refine.{Ready, read-Reads}
use course_archive.Cache.Replace.{Settles}
use course_archive.Inode.{
  Inode, no_sector, bytes_to_sectors, byte_to_sector, chunk, read_loop, read_at,
}
use course_archive.Inode.Sectors.{
  sector_of, Settled, Indexed, Reread, Reread-Settled, byte_to_sector-of,
}

-- The byte of a file at an offset, in sectors `f`.
abbrev pub byte_at : (ℕ → Sector) → Inode → ℕ → ℕ
byte_at f x i = get_or (f (sector_of f x (i / 512))) (i % 512) 0

pub record ChunkFits (len wanted off n : ℕ) : Type 0 where
  pub size : n ≤ wanted
  pub left : n ≤ len - off
  pub room : off % 512 + n ≤ 512
  pub ends : n ≡ 0 → wanted ≢ 0 → len ≤ off

pub chunk-fits : (len size off : ℕ) → ChunkFits len size off (chunk len size off)
chunk-fits len size off = record {
  size = ground arith;
  left = ground arith;
  room = ground arith;
  ends = λ z nz. ground arith;
}

-- Bytes that lie in one sector.
pub sector-bytes :
    (f : ℕ → Sector) (x : Inode) (off n : ℕ)
    → off % 512 + n ≤ 512
    → ((s : ℕ) → length (f s) ≡ 512)
    → take n (drop (off % 512) (f (sector_of f x (off / 512)))) ≡ tabulate (byte_at f x) off n
sector-bytes f x off n fits full =
    let s = sector_of f x (off / 512) in
    take-tabulate (drop (off % 512) (f s)) n 0
      (omega (arith, length-drop (off % 512) (f s), full s))
    ∙ tabulate-ext (λ i. get_or (drop (off % 512) (f s)) i 0) (byte_at f x) 0 off n
        (λ k lt.
          get_or-at (drop (off % 512) (f s)) 0 {j = k} (omega arith)
          ∙ get_or-drop (f s) (off % 512) k 0
          ∙ place k (omega arith) (omega arith))
  where
    place :
        (k : ℕ)
        → (off + k) / 512 ≡ off / 512
        → (off + k) % 512 ≡ off % 512 + k
        → get_or (f (sector_of f x (off / 512))) (off % 512 + k) 0 ≡ byte_at f x (off + k)
    place k a b = rw (a, b) refl

module _ {Disk : Type 0} (ops : BlockOps Disk) where
  -- A file of `len` bytes in the sectors `f`.
  pub record IsFile (n : ℕ) (c : Cache Disk) (f : ℕ → Sector) (x : Inode) (len : ℕ) : Type 0 where
    pub ready : Ready ops n c f
    pub indexed : Indexed ops n c f x (bytes_to_sectors len)
    pub data_inside : (i : ℕ) → i < bytes_to_sectors len → sector_of f x i < n
    pub full : (s : ℕ) → length (f s) ≡ 512

  pub Indexed-mono :
      {n : ℕ} {c c' : Cache Disk} {f : ℕ → Sector} {x : Inode} {count : ℕ}
      → ((s : ℕ) → Settled ops n c f s → Settled ops n c' f s)
      → Indexed ops n c f x count
      → Indexed ops n c' f x count
  Indexed-mono more h = record {
    indirect = λ i lo hi lt. more _ (h.indirect i lo hi lt);
    outer = λ i lo lt. more _ (h.outer i lo lt);
    inner = λ i lo lt. more _ (h.inner i lo lt);
    room = h.room;
  }

  module _ (x : Inode) (len : ℕ) where
    beyond :
        (c : Cache Disk) (off : ℕ)
        → leb len off ≡ true
        → byte_to_sector ops c x len off ≡ some (no_sector, c)
    unfolding byte_to_sector
    beyond c off past = rw past refl

    -- One round.
    round-end :
        (fuel : ℕ) (c c1 : Cache Disk) (size off s : ℕ)
        → (size == 0) ≡ false
        → byte_to_sector ops c x len off ≡ some (s, c1)
        → (chunk len size off == 0) ≡ true
        → read_loop ops (suc fuel) c x len size off ≡ some ([], c1)
    unfolding read_loop
    round-end fuel c c1 size off s more e none_left = rw (e, more, none_left) refl

    round-next :
        (fuel : ℕ) (c c1 c2 c3 : Cache Disk) (size off s : ℕ) (bytes rest : List ℕ)
        → (size == 0) ≡ false
        → byte_to_sector ops c x len off ≡ some (s, c1)
        → (chunk len size off == 0) ≡ false
        → Cache.read ops c1 s (off % 512) (chunk len size off) ≡ some (bytes, c2)
        → read_loop ops fuel c2 x len (size - chunk len size off) (off + chunk len size off)
          ≡ some (rest, c3)
        → read_loop ops (suc fuel) c x len size off ≡ some (bytes ++ rest, c3)
    unfolding read_loop
    round-next fuel c c1 c2 c3 size off s bytes rest more e some_left e2 e3 =
        rw (e, more, some_left, e2, e3) refl

  module _ (store : IsStore ops) {n : ℕ} {f : ℕ → Sector} {x : Inode} {len : ℕ} where
    -- Reads of the device and of the cache leave the file as it is.
    pub IsFile-Reread :
        {c c' : Cache Disk} → Reread ops n f c c' → IsFile n c f x len → IsFile n c' f x len
    IsFile-Reread u h = record {
      ready = u.ready;
      indexed = Indexed-mono (λ s. Reread-Settled ops s u) h.indexed;
      data_inside = h.data_inside;
      full = h.full;
    }

    pub IsFile-Settles :
        {c c' : Cache Disk}
        → Ready ops n c' f
        → Settles ops store c f c'
        → IsFile n c f x len
        → IsFile n c' f x len
    IsFile-Settles r keep h = record {
      ready = r;
      indexed = Indexed-mono (λ s (lt, now). (lt, keep s now)) h.indexed;
      data_inside = h.data_inside;
      full = h.full;
    }

  -- The loop on one file.
  module _ (store : IsStore ops) (n : ℕ) (f : ℕ → Sector) (x : Inode) (len : ℕ) where
    -- Everything that the loop leaves as it was.
    pub record Kept (c c' : Cache Disk) : Type 0 where
      pub file : IsFile n c' f x len
      pub settles : Settles ops store c f c'

    Kept-Reread : {c c' : Cache Disk} → IsFile n c f x len → Reread ops n f c c' → Kept c c'
    Kept-Reread h u = record {
      file = IsFile-Reread store u h;
      settles = λ s now. ap (λ (d : Disk). ops.read d s) u.same ∙ now;
    }

    Kept-trans : {c c1 c2 : Cache Disk} → Kept c c1 → Kept c1 c2 → Kept c c2
    Kept-trans u v = record { file = v.file; settles = λ s now. v.settles s (u.settles s now) }

    -- `byte_to_sector` for the loops, at any offset.
    pub next_sector :
        {c : Cache Disk} (off : ℕ)
        → IsFile n c f x len
        → Returns
            (λ (s, c'). Kept c c' × (off < len → (s ≡ sector_of f x (off / 512)) × (s < n)))
            (byte_to_sector ops c x len off)
    next_sector {c} off h = elim (Bool-cases (leb len off)) [
      | inl past ↦ (
        (no_sector, c),
        beyond x len c off past,
        (record { file = h; settles = λ s now. now }, λ lt. absurd (ground arith)),
      )
      | inr there ↦
          let ((s, c1), e, (at, u)) =
            byte_to_sector-of ops h.ready h.indexed len off (ground arith) (ground arith) in
          (
            (s, c1),
            e,
            (
              Kept-Reread h u,
              λ lt. (
                at,
                subst (λ (k : ℕ). k < n) (sym at) (h.data_inside (off / 512) (omega (arith, lt))),
              ),
            ),
          )
    ]

    abbrev pub Reads : Cache Disk → ℕ → ℕ → List ℕ × Cache Disk → Type 0
    Reads c size off (bytes, c') =
        (bytes ≡ tabulate (byte_at f x) off (min size (len - off))) × Kept c c'

    read_loop-Reads :
        (fuel : ℕ) {c : Cache Disk} (size off : ℕ)
        → size ≤ fuel
        → IsFile n c f x len
        → Returns (Reads c size off) (read_loop ops fuel c x len size off)
    unfolding read_loop
    read_loop-Reads zero {c} size off le h =
        let none_left : size ≡ 0 = omega arith in
        rw none_left (
          ([], c),
          refl,
          (
            tabulate-at (byte_at f x) {n = 0} refl (omega arith),
            record { file = h; settles = λ s now. now },
          ),
        )
    read_loop-Reads (suc fuel) {c} size off le h = elim (Bool-cases (size == 0)) [
      | inl done ↦ rw done (
        ([], c),
        refl,
        (
          tabulate-at (byte_at f x) {n = 0} refl (ground (arith, done)),
          record { file = h; settles = λ s now. now },
        ),
      )
      | inr more ↦
          let ((s, c1), e1, (k1, at)) = next_sector off h in
          let m = chunk len size off in
          let fits = chunk-fits len size off in
          elim (Bool-cases (chunk len size off == 0)) [
            | inl stuck ↦ (
              ([], c1),
              round-end x len fuel c c1 size off s more e1 stuck,
              (
                tabulate-at (byte_at f x) {n = 0} refl
                    (omega (arith, fits.ends (ground (arith, stuck)) (ground (arith, more)))),
                k1,
              ),
            )
            | inr some_left ↦
                let (same, inside) = at (ground (arith, fits.left, some_left)) in
                let ((bytes, c2), e2, (b, r2, u2)) =
                  read-Reads ops store k1.file.ready s (off % 512) inside m fits.room in
                let k2 : Kept c1 c2 = record {
                  file = IsFile-Settles store r2 u2 k1.file;
                  settles = u2;
                } in
                let ((rest, c3), e3, (b3, k3)) =
                  read_loop-Reads fuel (size - m) (off + m) (ground (arith, some_left)) k2.file in
                (
                  (bytes ++ rest, c3),
                  round-next x len fuel c c1 c2 c3 size off s bytes rest more e1 some_left e2 e3,
                  (
                    ap (λ (l : List ℕ). l ++ rest)
                          (b
                            ∙ ap (λ (t : ℕ). take m (drop (off % 512) (f t))) same
                            ∙ sector-bytes f x off m fits.room h.full)
                        ∙ ap (λ (l : List ℕ). tabulate (byte_at f x) off m ++ l) b3
                        ∙ sym
                            (tabulate-append (byte_at f x) off m (min (size - m) (len - (off + m))))
                        ∙ tabulate-at (byte_at f x) refl (omega (arith, fits.size, fits.left)),
                    Kept-trans k1 (Kept-trans k2 k3),
                  ),
                )
          ]
    ]

-- `inode_read_at` never panics on a file whose index sectors are up to date on the device: it
-- returns the bytes of the file from `offset` on, `size` of them or as many as there are, and
-- changes nothing.
pub read_at-Reads :
    {Disk : Type 0} (ops : BlockOps Disk) (store : IsStore ops) {n : ℕ} {f : ℕ → Sector}
    {c : Cache Disk} (x : Inode) (size offset : ℕ)
    → IsFile ops n c f x x.read_length
    → Returns
        (λ (bytes, c').
          (bytes ≡ tabulate (byte_at f x) offset (min size (x.read_length - offset)))
          × IsFile ops n c' f x x.read_length)
        (read_at ops c x size offset)
unfolding read_at
read_at-Reads ops store {n} {f} {c} x size offset h = elim (Bool-cases (leb x.read_length offset)) [
  | inl past ↦
      rw past (([], c), refl, (tabulate-at (byte_at f x) {n = 0} refl (ground (arith, past)), h))
  | inr there ↦
      let (r, e, (b, kept)) =
        read_loop-Reads ops store n f x x.read_length size size offset (omega arith) h in
      rw there (r, e, (b, kept.file))
]
