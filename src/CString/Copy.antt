-- ===== src/CString/Copy.antt =====
-- Copying and filling blocks.
use course_archive.Prelude.{
  ℕ, zero, suc, ◌+◌, ◌-◌, ◌%◌, ◌≤◌, ◌≡◌, refl, ◌∙◌, ap, Bool, true, false, ◌&&◌, some, ◌==◌, ltb,
  leb, if◌then◌else◌, Returns, Bool-cases, ◌⊎◌, inl, inr, arith,
}
use course_archive.CString.{Memory, poke, copy_up, copy_down, memcpy, memmove, memset_loop, memset}

-- The block [a, a + n).
abbrev pub inside : ℕ → ℕ → ℕ → Bool
inside a n b = leb a b && ltb b (a + n)

-- The `size` bytes at `dst` are those that were at `src`, and no other byte has changed.
abbrev pub Copied : Memory → ℕ → ℕ → ℕ → Memory → Type 0
Copied mem dst src size mem' =
    (b : ℕ) → mem' b ≡ (if inside dst size b then mem (src + (b - dst)) else mem b)

up_step :
    (mem : Memory) (dst src size b : ℕ)
    → (dst ≤ src) ⊎ (src + suc size ≤ dst)
    → (if inside (dst + 1) size b
        then poke mem dst (mem src) ((src + 1) + (b - (dst + 1)))
        else poke mem dst (mem src) b)
      ≡ (if inside dst (suc size) b then mem (src + (b - dst)) else mem b)
up_step mem dst src size b h = elim (Bool-cases (inside (dst + 1) size b)) [
  | inl within ↦
      let other : ((src + 1) + (b - (dst + 1)) == dst) ≡ false = apart h within in
      let more : inside dst (suc size) b ≡ true = ground arith in
      rw (within, other, more) (ap mem (ground arith))
  | inr without ↦ elim (Bool-cases (b == dst)) [
    | inl first ↦
        let more : inside dst (suc size) b ≡ true = ground arith in
        rw (without, first, more) (ap mem (ground arith))
    | inr other ↦
        let more : inside dst (suc size) b ≡ false = ground arith in rw (without, other, more) refl
  ]
]
  where
    apart :
        (dst ≤ src) ⊎ (src + suc size ≤ dst)
        → inside (dst + 1) size b ≡ true
        → ((src + 1) + (b - (dst + 1)) == dst) ≡ false
    apart (inl le) w = ground arith
    apart (inr ge) w = ground arith

down_step :
    (mem : Memory) (dst src size b : ℕ)
    → src ≤ dst
    → (if inside dst size b
        then poke mem (dst + size) (mem (src + size)) (src + (b - dst))
        else poke mem (dst + size) (mem (src + size)) b)
      ≡ (if inside dst (suc size) b then mem (src + (b - dst)) else mem b)
down_step mem dst src size b h = elim (Bool-cases (inside dst size b)) [
  | inl within ↦
      let other : (src + (b - dst) == dst + size) ≡ false = ground arith in
      let more : inside dst (suc size) b ≡ true = ground arith in rw (within, other, more) refl
  | inr without ↦ elim (Bool-cases (b == dst + size)) [
    | inl last ↦
        let more : inside dst (suc size) b ≡ true = ground arith in
        rw (without, last, more) (ap mem (ground arith))
    | inr other ↦
        let more : inside dst (suc size) b ≡ false = ground arith in rw (without, other, more) refl
  ]
]

-- Upwards is right if the destination is not behind the source, inside it.
pub copy_up-Copied :
    (size : ℕ) (mem : Memory) (dst src : ℕ)
    → (dst ≤ src) ⊎ (src + size ≤ dst)
    → Copied mem dst src size (copy_up size mem dst src).0
unfolding copy_up
copy_up-Copied zero mem dst src h b = ground arith
copy_up-Copied (suc size) mem dst src h b =
    copy_up-Copied size (poke mem dst (mem src)) (dst + 1) (src + 1) (below h) b
    ∙ up_step mem dst src size b h
  where
    below :
        (dst ≤ src) ⊎ (src + suc size ≤ dst) → (dst + 1 ≤ src + 1) ⊎ ((src + 1) + size ≤ dst + 1)
    below (inl le) = inl (omega arith)
    below (inr ge) = inr (omega arith)

pub copy_up-end :
    (size : ℕ) (mem : Memory) (dst src : ℕ) → (copy_up size mem dst src).1 ≡ dst + size
unfolding copy_up
copy_up-end zero mem dst src = omega arith
copy_up-end (suc size) mem dst src =
    omega (arith, copy_up-end size (poke mem dst (mem src)) (dst + 1) (src + 1))

copy_down_at :
    (size : ℕ) (mem : Memory) (d s d' s' : ℕ)
    → d - 1 ≡ d'
    → s - 1 ≡ s'
    → copy_down (suc size) mem d s ≡ copy_down size (poke mem d' (mem s')) d' s'
unfolding copy_down
copy_down_at size mem d s d' s' e e' = rw (e, e') refl

copy_down-suc :
    (size : ℕ) (mem : Memory) (dst src : ℕ)
    → copy_down (suc size) mem (dst + suc size) (src + suc size)
      ≡ copy_down size (poke mem (dst + size) (mem (src + size))) (dst + size) (src + size)
copy_down-suc size mem dst src =
    copy_down_at size mem (dst + suc size) (src + suc size) (dst + size) (src + size) (omega arith)
      (omega arith)

-- Downwards is right if it is not before the source.
pub copy_down-Copied :
    (size : ℕ) (mem : Memory) (dst src : ℕ)
    → src ≤ dst
    → Copied mem dst src size (copy_down size mem (dst + size) (src + size)).0
unfolding copy_down
copy_down-Copied zero mem dst src h b = ground arith
copy_down-Copied (suc size) mem dst src h b =
    ap (λ (r : Memory × ℕ). r.0 b) (copy_down-suc size mem dst src)
    ∙ copy_down-Copied size (poke mem (dst + size) (mem (src + size))) dst src h b
    ∙ down_step mem dst src size b h

pub copy_down-end :
    (size : ℕ) (mem : Memory) (dst src : ℕ) → (copy_down size mem (dst + size) (src + size)).1 ≡ dst
unfolding copy_down
copy_down-end zero mem dst src = omega arith
copy_down-end (suc size) mem dst src =
    ap (λ (r : Memory × ℕ). r.1) (copy_down-suc size mem dst src)
    ∙ copy_down-end size (poke mem (dst + size) (mem (src + size))) dst src

memcpy-some :
    (mem : Memory) (dst src size : ℕ)
    → (dst == 0) ≡ false
    → (src == 0) ≡ false
    → memcpy mem dst src size ≡ some ((copy_up size mem dst src).0, dst)
unfolding memcpy
memcpy-some mem dst src size d s = rw (d, s) refl

-- `memcpy` between blocks that do not overlap copies the bytes, and returns `dst`.
pub memcpy-Copied :
    (mem : Memory) (dst src size : ℕ)
    → (dst == 0) ≡ false
    → (src == 0) ≡ false
    → (dst + size ≤ src) ⊎ (src + size ≤ dst)
    → Returns (λ (mem', p). Copied mem dst src size mem' × (p ≡ dst)) (memcpy mem dst src size)
memcpy-Copied mem dst src size d s h = (
  ((copy_up size mem dst src).0, dst),
  memcpy-some mem dst src size d s,
  (copy_up-Copied size mem dst src (either h), refl),
)
  where
    either : (dst + size ≤ src) ⊎ (src + size ≤ dst) → (dst ≤ src) ⊎ (src + size ≤ dst)
    either (inl le) = inl (omega arith)
    either (inr ge) = inr ge

memmove-up :
    (mem : Memory) (dst src size : ℕ)
    → (dst == 0) ≡ false
    → (src == 0) ≡ false
    → ltb dst src ≡ true
    → memmove mem dst src size ≡ some (copy_up size mem dst src)
unfolding memmove
memmove-up mem dst src size d s lt = rw (d, s, lt) refl

memmove-down :
    (mem : Memory) (dst src size : ℕ)
    → (dst == 0) ≡ false
    → (src == 0) ≡ false
    → ltb dst src ≡ false
    → memmove mem dst src size ≡ some (copy_down size mem (dst + size) (src + size))
unfolding memmove
memmove-down mem dst src size d s ge = rw (d, s, ge) refl

-- `memmove` copies the bytes however the blocks overlap. It returns `dst` only if `dst` is not
-- before `src`, and otherwise the address behind the copy.
pub memmove-Copied :
    (mem : Memory) (dst src size : ℕ)
    → (dst == 0) ≡ false
    → (src == 0) ≡ false
    → Returns
        (λ (mem', p).
          Copied mem dst src size mem' × (p ≡ (if ltb dst src then dst + size else dst)))
        (memmove mem dst src size)
memmove-Copied mem dst src size d s = elim (Bool-cases (ltb dst src)) [
  | inl lt ↦ (
    copy_up size mem dst src,
    memmove-up mem dst src size d s lt,
    (
      copy_up-Copied size mem dst src (inl (ground arith)),
      copy_up-end size mem dst src ∙ rw lt refl,
    ),
  )
  | inr ge ↦ (
    copy_down size mem (dst + size) (src + size),
    memmove-down mem dst src size d s ge,
    (copy_down-Copied size mem dst src (ground arith), copy_down-end size mem dst src ∙ rw ge refl),
  )
]

filled_step :
    (mem : Memory) (dst v size b : ℕ)
    → (if inside (dst + 1) size b then v else poke mem dst v b)
      ≡ (if inside dst (suc size) b then v else mem b)
filled_step mem dst v size b = ground arith

memset_loop-filled :
    (size : ℕ) (mem : Memory) (dst value b : ℕ)
    → memset_loop size mem dst value b ≡ (if inside dst size b then value % 256 else mem b)
unfolding memset_loop
memset_loop-filled zero mem dst value b = ground arith
memset_loop-filled (suc size) mem dst value b =
    memset_loop-filled size (poke mem dst (value % 256)) (dst + 1) value b
    ∙ filled_step mem dst (value % 256) size b

memset-some :
    (mem : Memory) (dst value size : ℕ)
    → (dst == 0) ≡ false
    → memset mem dst value size ≡ some (memset_loop size mem dst value, dst)
unfolding memset
memset-some mem dst value size d = rw d refl

-- `memset` writes the low byte of `value` into the block, and nothing else.
pub memset-filled :
    (mem : Memory) (dst value size : ℕ)
    → (dst == 0) ≡ false
    → Returns
        (λ (mem', p).
          ((b : ℕ) → mem' b ≡ (if inside dst size b then value % 256 else mem b)) × (p ≡ dst))
        (memset mem dst value size)
memset-filled mem dst value size d = (
  (memset_loop size mem dst value, dst),
  memset-some mem dst value size d,
  (memset_loop-filled size mem dst value, refl),
)
