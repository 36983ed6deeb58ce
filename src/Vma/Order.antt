-- ===== src/Vma/Order.antt =====
-- The order of the list that kernel/vma.c keeps.
use la_os.Common.{
  ℕ, ◌≤◌, ◌<◌, ◌≡◌, true, false, Bool-cases, inl, inr, ◌⊎◌, List, [], ◌∷◌, arith, ltb, subst, sym,
}
use la_os.Vma.{Vma, vma_insert}

-- The regions are not empty, lie apart, and stand in the order of their addresses, from `lo` on.
abbrev pub Apart : (lo : ℕ) → List Vma → Type 0
Apart lo [] = Unit {0}
Apart lo (u ∷ us) = (lo ≤ u.start) × (u.start < u.end) × Apart u.end us

-- `v` overlaps none of the regions.
abbrev pub Clear : (start end : ℕ) → List Vma → Type 0
Clear start end [] = Unit {0}
Clear start end (u ∷ us) = ((end ≤ u.start) ⊎ (u.end ≤ start)) × Clear start end us

pub Apart-le : (lo mid : ℕ) (us : List Vma) → lo ≤ mid → Apart mid us → Apart lo us
Apart-le lo mid [] le a = tt
Apart-le lo mid (u ∷ us) le a = (omega (arith, a.0), a.1, a.2)

pub insert-before :
    (v u : Vma) (us : List Vma)
    → ltb u.start v.start ≡ true
    → vma_insert v (u ∷ us) ≡ u ∷ vma_insert v us
unfolding vma_insert
insert-before v u us before = rw before

pub insert-here :
    (v u : Vma) (us : List Vma) → ltb u.start v.start ≡ false → vma_insert v (u ∷ us) ≡ v ∷ u ∷ us
unfolding vma_insert
insert-here v u us here = rw here

pub insert-Apart :
    (lo : ℕ) (v : Vma) (us : List Vma)
    → Apart lo us
    → lo ≤ v.start
    → v.start < v.end
    → Clear v.start v.end us
    → Apart lo (vma_insert v us)
unfolding vma_insert
insert-Apart lo v [] a le ne c = (le, ne, tt)
insert-Apart lo v (u ∷ us) a le ne c = elim (Bool-cases (ltb u.start v.start)) [
  | inl before ↦
      subst (Apart lo) (sym (insert-before v u us before))
        (a.0, a.1, insert-Apart u.end v us a.2 (ground (arith, a.1, c.0)) ne c.1)
  | inr here ↦
      subst (Apart lo) (sym (insert-here v u us here))
        (le, ne, (ground (arith, a.1, c.0), a.1, a.2))
]
