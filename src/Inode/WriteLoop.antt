-- ===== src/Inode/WriteLoop.antt =====
-- The loop of `inode_write_at` writes the bytes of its buffer into the file, and no others.
use mathlib.Core.Path.{subst}
use Prim.Native.Nat.{min}
use course_archive.Prelude.{
  ℕ, zero, suc, ◌+◌, ◌-◌, ◌/◌, ◌%◌, ◌≤◌, ◌<◌, ◌≡◌, ◌≢◌, refl, sym, ◌∙◌, ap, true, false, some, List,
  ◌==◌, if◌then◌else◌, get_or, length, length-drop, length-take, take, drop, Returns, Bool-cases,
  inl, inr, arith, get_or-drop, get_or-at, get_or-take,
}
use course_archive.Block.{Sector, BlockOps, IsStore}
use course_archive.Cache
use course_archive.Cache.{Cache, splice}
use course_archive.Cache.Refine.{Ready, update, write-Writes}
use course_archive.Cache.Replace.{Settles}
use course_archive.Inode.{Inode, bytes_to_sectors, byte_to_sector, chunk, write_loop}
use course_archive.Inode.Sectors.{sector_of, Settled}
use course_archive.Inode.Read.{byte_at, IsFile, chunk-fits, next_sector}
use course_archive.Inode.Write.{
  within, Apart, sector_of-changed, Apart-changed, number, update-ne, byte_at-changed,
  length-splice,
}

-- One round, for any result of the write.
module _ {Disk : Type 0} (ops : BlockOps Disk) (x : Inode) where
  round-end :
      (fuel : ℕ) (c c1 : Cache Disk) (buffer : List ℕ) (size off s : ℕ)
      → (size == 0) ≡ false
      → byte_to_sector ops c x x.length off ≡ some (s, c1)
      → (chunk x.length size off == 0) ≡ true
      → write_loop ops (suc fuel) c x buffer size off ≡ some (0, c1)
  unfolding write_loop
  round-end fuel c c1 buffer size off s more e none_left = rw (e, more, none_left) refl

  round-next :
      (fuel : ℕ) (c c1 c2 c3 : Cache Disk) (buffer : List ℕ) (size off s done : ℕ)
      → (size == 0) ≡ false
      → byte_to_sector ops c x x.length off ≡ some (s, c1)
      → (chunk x.length size off == 0) ≡ false
      → Cache.write ops c1 s (off % 512) (take (chunk x.length size off) buffer) ≡ some c2
      → write_loop ops fuel c2 x
          (drop (chunk x.length size off) buffer)
          (size - chunk x.length size off)
          (off + chunk x.length size off)
        ≡ some (done, c3)
      → write_loop ops (suc fuel) c x buffer size off ≡ some (chunk x.length size off + done, c3)
  unfolding write_loop
  round-next fuel c c1 c2 c3 buffer size off s done more e some_left e2 e3 =
      rw (e, more, some_left, e2, e3) refl

-- A buffer in two parts.
two_parts :
    (g : ℕ → ℕ) (buffer : List ℕ) (off m rest i : ℕ)
    → (if within (off + m) rest i
        then get_or (drop m buffer) (i - (off + m)) 0
        else (if within off m i then get_or (take m buffer) (i - off) 0 else g i))
      ≡ (if within off (m + rest) i then get_or buffer (i - off) 0 else g i)
two_parts g buffer off m rest i = elim (Bool-cases (within off m i)) [
  | inl early ↦
      let not_late : within (off + m) rest i ≡ false = ground (arith, early) in
      let all : within off (m + rest) i ≡ true = ground (arith, early) in
      rw (early, not_late, all) (get_or-take buffer m (i - off) 0 (ground (arith, early)))
  | inr not_early ↦ elim (Bool-cases (within (off + m) rest i)) [
    | inl late ↦
        let all : within off (m + rest) i ≡ true = ground (arith, late) in
        rw (late, all)
          (get_or-drop buffer m (i - (off + m)) 0
            ∙ get_or-at buffer 0 {j = i - off} (ground (arith, late)))
    | inr not_late ↦
        let nothing : within off (m + rest) i ≡ false = ground (arith, not_early, not_late) in
        rw (not_early, not_late, nothing) refl
  ]
]

module _ {Disk : Type 0} (ops : BlockOps Disk) (store : IsStore ops) (n : ℕ) (x : Inode)
    (len : ℕ) where
  -- The file after a write of `m` bytes of `buffer` at `off`, in sectors `f'`.
  pub record Written (f : ℕ → Sector) (buffer : List ℕ) (off m : ℕ) (c' : Cache Disk) : Type 0 where
    pub sectors : ℕ → Sector
    pub file : IsFile ops n c' sectors x len
    pub apart : Apart sectors x (bytes_to_sectors len)
    pub bytes :
        (i : ℕ)
        → i < len
        → byte_at sectors x i
          ≡ (if within off m i then get_or buffer (i - off) 0 else byte_at f x i)
    pub places : (i : ℕ) → i < bytes_to_sectors len → sector_of sectors x i ≡ sector_of f x i
    pub others :
        (s : ℕ) → ((j : ℕ) → j < bytes_to_sectors len → s ≢ sector_of f x j) → sectors s ≡ f s

  -- A write into one sector.
  module _ {f : ℕ → Sector} {c c2 : Cache Disk} (h : IsFile ops n c f x len)
      (a : Apart f x (bytes_to_sectors len)) (off : ℕ) (new : List ℕ) (lt : off < len)
      (fits : off % 512 + length new ≤ 512)
      (r : Ready ops n c2 (
        update f
          (sector_of f x (off / 512))
          (splice (f (sector_of f x (off / 512))) (off % 512) new)))
      (keep : Settles ops store c f c2) where
    Written-one : Written f new off (length new) c2
    Written-one = record {
      sectors = f1;
      file = record {
        ready = r;
        indexed = record {
          indirect =
              λ i lo hi li. still _ (a.indirect i j lo hi li near) (h.indexed.indirect i lo hi li);
          outer = λ i lo li. still _ (a.outer i j lo li near) (h.indexed.outer i lo li);
          inner = λ i lo li.
              subst (Settled ops n c2 f1) (sym (number a j near b i lo li))
                (still _ (a.inner i j lo li near) (h.indexed.inner i lo li));
          room = h.indexed.room;
        };
        data_inside = λ i li.
            subst (λ (s : ℕ). s < n) (sym (sector_of-changed a j near b i li)) (h.data_inside i li);
        full = λ s. elim (Bool-cases (s == sector_of f x j)) [
          | inl same ↦ rw same (
              length-splice (f (sector_of f x j)) (off % 512) new
                (omega (arith, fits, h.full (sector_of f x j)))
              ∙ h.full (sector_of f x j))
          | inr other ↦ rw other (h.full s)
        ];
      };
      apart = Apart-changed a j near b;
      bytes = λ i li. byte_at-changed a off new near fits h.full i (omega (arith, li));
      places = λ i li. sector_of-changed a j near b i li;
      others = λ s away. update-ne f (sector_of f x j) b s (away j near);
    }
      where
        j : ℕ
        j = off / 512

        near : off / 512 < bytes_to_sectors len
        near = omega (arith, lt)

        b : Sector
        b = splice (f (sector_of f x (off / 512))) (off % 512) new

        f1 : ℕ → Sector
        f1 = update f (sector_of f x (off / 512)) b

        still :
            (s : ℕ) → s ≢ sector_of f x (off / 512) → Settled ops n c f s → Settled ops n c2 f1 s
        still s ne (inside, now) =
            (inside, keep s now ∙ sym (update-ne f (sector_of f x (off / 512)) b s ne))

  -- A file of which nothing was written.
  Written-none :
      {f : ℕ → Sector} {c : Cache Disk} (buffer : List ℕ) (off : ℕ)
      → IsFile ops n c f x len
      → Apart f x (bytes_to_sectors len)
      → Written f buffer off 0 c
  Written-none {f} buffer off h a = record {
    sectors = f;
    file = h;
    apart = a;
    bytes = λ i li. let nothing : within off 0 i ≡ false = ground arith in rw nothing refl;
    places = λ i li. refl;
    others = λ s away. refl;
  }

  -- First one part of the buffer, then the rest.
  Written-both :
      {f : ℕ → Sector} {c1 c2 : Cache Disk} (buffer : List ℕ) (off m rest : ℕ)
      → (u : Written f (take m buffer) off m c1)
      → Written u.sectors (drop m buffer) (off + m) rest c2
      → Written f buffer off (m + rest) c2
  Written-both {f} buffer off m rest u v = record {
    sectors = v.sectors;
    file = v.file;
    apart = v.apart;
    bytes = λ i li.
        v.bytes i li
        ∙ ap
            (λ (k : ℕ).
              if within (off + m) rest i then get_or (drop m buffer) (i - (off + m)) 0 else k)
            (u.bytes i li)
        ∙ two_parts (byte_at f x) buffer off m rest i;
    places = λ i li. v.places i li ∙ u.places i li;
    others = λ s away. v.others s (λ j lj e. away j lj (e ∙ u.places j lj)) ∙ u.others s away;
  }

-- The loop writes as much of the buffer as fits before the end of the file.
module _ {Disk : Type 0} (ops : BlockOps Disk) (store : IsStore ops) (n : ℕ) (x : Inode) where
  pub write_loop-Written :
      (fuel : ℕ) {f : ℕ → Sector} {c : Cache Disk} (buffer : List ℕ) (size off : ℕ)
      → length buffer ≡ size
      → size ≤ fuel
      → IsFile ops n c f x x.length
      → Apart f x (bytes_to_sectors x.length)
      → Returns
          (λ (k, c').
            (k ≡ min size (x.length - off)) × Written ops store n x x.length f buffer off k c')
          (write_loop ops fuel c x buffer size off)
  unfolding write_loop
  write_loop-Written zero {f} {c} buffer size off e le h a =
      let none_left : size ≡ 0 = omega arith in
      rw none_left ((0, c), refl, (omega arith, Written-none ops store n x x.length buffer off h a))
  write_loop-Written (suc fuel) {f} {c} buffer size off e le h a = elim (Bool-cases (size == 0)) [
    | inl done ↦
        rw done
          ((0, c), refl, (ground (arith, done), Written-none ops store n x x.length buffer off h a))
    | inr more ↦
        let ((s, c1), e1, (k1, at)) = next_sector ops store n f x x.length off h in
        let m = chunk x.length size off in
        let fits = chunk-fits x.length size off in
        elim (Bool-cases (chunk x.length size off == 0)) [
          | inl stuck ↦ (
            (0, c1),
            round-end ops x fuel c c1 buffer size off s more e1 stuck,
            (
              omega (arith, fits.ends (ground (arith, stuck)) (ground (arith, more))),
              Written-none ops store n x x.length buffer off k1.file a,
            ),
          )
          | inr some_left ↦
              let lt : off < x.length = ground (arith, fits.left, some_left) in
              let (same, inside) = at lt in
              let part : length (take m buffer) ≡ m =
                omega (arith, length-take m buffer, fits.size, e) in
              let (c2, e2, (r2, u2)) =
                write-Writes ops store k1.file.ready s (off % 512) inside (take m buffer)
                  (omega (arith, fits.room, part)) in
              let w : Written ops store n x x.length f (take m buffer) off m c2 =
                subst (λ (k : ℕ). Written ops store n x x.length f (take m buffer) off k c2) part
                  (Written-one ops store n x x.length k1.file a off (take m buffer) lt
                    (omega (arith, fits.room, part))
                    (subst
                      (λ (t : ℕ).
                        Ready ops n c2 (update f t (splice (f t) (off % 512) (take m buffer))))
                      same r2)
                    u2) in
              let ((done, c3), e3, (total, v)) =
                write_loop-Written fuel {f = w.sectors} {c = c2} (drop m buffer) (size - m)
                  (off + m) (omega (arith, length-drop m buffer, e)) (ground (arith, some_left))
                  w.file w.apart in
              (
                (m + done, c3),
                round-next ops x fuel c c1 c2 c3 buffer size off s done more e1 some_left e2 e3,
                (
                  omega (arith, total, fits.size, fits.left),
                  Written-both ops store n x x.length buffer off m done w v,
                ),
              )
        ]
  ]
