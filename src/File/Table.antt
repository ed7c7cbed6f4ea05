-- ===== src/File/Table.antt =====
-- Replacing an inode in the table of open inodes.
use mathlib.Core.Path.{subst}
use course_archive.Prelude.{
  ℕ, ◌≡◌, refl, sym, ◌∙◌, ap, true, false, Option, none, some, List, [], ◌∷◌, ◌==◌, Bool-cases, inl,
  inr, arith,
}
use course_archive.Inode.{Inode}
use course_archive.Inode.Table.{find_open, put_open}

abbrev IsNone : Option Inode → Type 0
IsNone none = Unit
IsNone (some x) = ⊥

abbrev inode_or : Inode → Option Inode → Inode
inode_or d none = d
inode_or d (some x) = x

not_found : {x : Inode} → none ≡ some x → ⊥
not_found e = subst IsNone e tt

found_here :
    (y : Inode) (l : List Inode) (s : ℕ) (x : Inode)
    → (y.sector == s) ≡ true
    → find_open (y ∷ l) s ≡ some x
    → y ≡ x
found_here y l s x here e =
    let step : find_open (y ∷ l) s ≡ some y = rw here refl in ap (inode_or x) (sym step ∙ e)

found_later :
    (y : Inode) (l : List Inode) (s : ℕ) (x : Inode)
    → (y.sector == s) ≡ false
    → find_open (y ∷ l) s ≡ some x
    → find_open l s ≡ some x
found_later y l s x later e =
    let step : find_open (y ∷ l) s ≡ find_open l s = rw later refl in sym step ∙ e

pub find_open-sector :
    (l : List Inode) (s : ℕ) (x : Inode) → find_open l s ≡ some x → (x.sector == s) ≡ true
find_open-sector [] s x e = absurd (not_found e)
find_open-sector (y ∷ l) s x e = elim (Bool-cases (y.sector == s)) [
  | inl here ↦ ap (λ (z : Inode). z.sector == s) (sym (found_here y l s x here e)) ∙ here
  | inr later ↦ find_open-sector l s x (found_later y l s x later e)
]

pub put_open-found : (l : List Inode) (x : Inode) → find_open l x.sector ≡ some x → put_open l x ≡ l
put_open-found [] x e = refl
put_open-found (y ∷ l) x e = elim (Bool-cases (y.sector == x.sector)) [
  | inl here ↦ rw here (ap (λ (z : Inode). z ∷ l) (sym (found_here y l x.sector x here e)))
  | inr later ↦ rw later (ap (λ k. y ∷ k) (put_open-found l x (found_later y l x.sector x later e)))
]

pub find_open-put_open :
    (l : List Inode) (x y : Inode)
    → find_open l y.sector ≡ some x
    → find_open (put_open l y) y.sector ≡ some y
find_open-put_open [] x y e = absurd (not_found e)
find_open-put_open (z ∷ l) x y e = elim (Bool-cases (z.sector == y.sector)) [
  | inl here ↦ let self : (y.sector == y.sector) ≡ true = ground arith in rw (here, self) refl
  | inr later ↦ rw (later, later) (find_open-put_open l x y (found_later z l y.sector x later e))
]

pub put_open-put_open :
    (l : List Inode) (x y : Inode) → x.sector ≡ y.sector → put_open (put_open l x) y ≡ put_open l y
put_open-put_open [] x y same = refl
put_open-put_open (z ∷ l) x y same = elim (Bool-cases (z.sector == y.sector)) [
  | inl here ↦
      let first : (z.sector == x.sector) ≡ true = ground (arith, here, same) in
      let again : (x.sector == y.sector) ≡ true = ground (arith, same) in
      rw (first, here, again) refl
  | inr later ↦
      let other : (z.sector == x.sector) ≡ false = ground (arith, later, same) in
      rw (other, later) (ap (λ k. z ∷ k) (put_open-put_open l x y same))
]
