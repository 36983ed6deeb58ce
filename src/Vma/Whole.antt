-- ===== src/Vma/Whole.antt =====
-- Regions of whole pages in the list of kernel/vma.c, and addresses outside all regions.
use la_os.Common.{
  ℕ, ◌%◌, ◌≤◌, ◌<◌, ◌≡◌, refl, ◌∙◌, ◌&&◌, ltb, leb, none, some, List, [], ◌∷◌, arith, if-false,
  if-both, inl, inr, page_size, add64, Bool-cases, subst, sym,
}
use la_os.Vma.{
  Vma, vma_find, vma_find_free, find_free_loop, page_length, user_mmap_base, user_mmap_end,
  vma_insert,
}
use la_os.Vma.Order.{Clear, insert-before, insert-here}
use la_os.Vma.FindFree.{EndBelow}

-- All regions end at the start of a page.
abbrev pub IsWhole : List Vma → Type 0
IsWhole [] = Unit {0}
IsWhole (u ∷ us) = (u.end % page_size ≡ 0) × IsWhole us

find_free_loop-whole :
    (length cursor : ℕ) (us : List Vma)
    → cursor % page_size ≡ 0
    → IsWhole us
    → find_free_loop length cursor us % page_size ≡ 0
unfolding find_free_loop
find_free_loop-whole length cursor [] at_page whole =
    if-both (λ r. r % page_size ≡ 0) (leb (add64 cursor length) user_mmap_end) cursor 0
      (λ e. at_page) (λ e. refl)
find_free_loop-whole length cursor (u ∷ us) at_page whole =
    if-both (λ r. r % page_size ≡ 0) (leb (add64 cursor length) u.start && ltb cursor user_mmap_end)
      cursor _ (λ e. at_page)
      (λ e.
        if-both (λ r. r % page_size ≡ 0) (leb user_mmap_end u.end) 0
          (find_free_loop length u.end us) (λ f. refl)
          (λ f. find_free_loop-whole length u.end us whole.0 whole.1))

pub vma_find_free-whole :
    (length : ℕ) (us : List Vma) → IsWhole us → vma_find_free (some us) length % page_size ≡ 0
unfolding vma_find_free
vma_find_free-whole length us whole =
    find_free_loop-whole (page_length length) user_mmap_base us refl whole

-- No region has an address of a region that overlaps none.
pub Clear-vma_find :
    (start end b : ℕ) (us : List Vma)
    → Clear start end us
    → start ≤ b
    → b < end
    → vma_find us b ≡ none
unfolding vma_find
Clear-vma_find start end b [] clear ge lt = refl
Clear-vma_find start end b (u ∷ us) clear ge lt =
    if-false (leb u.start b && ltb b u.end) (some u) (vma_find us b) (elim clear.0 [
      | inl before ↦ ground (arith, before, ge, lt)
      | inr behind ↦ ground (arith, behind, ge, lt)
    ])
    ∙ Clear-vma_find start end b us clear.1 ge lt

pub insert-IsWhole :
    (v : Vma) (us : List Vma) → v.end % page_size ≡ 0 → IsWhole us → IsWhole (vma_insert v us)
unfolding vma_insert
insert-IsWhole v [] at_page whole = (at_page, tt)
insert-IsWhole v (u ∷ us) at_page whole = elim (Bool-cases (ltb u.start v.start)) [
  | inl before ↦
      subst IsWhole (sym (insert-before v u us before))
        (whole.0, insert-IsWhole v us at_page whole.1)
  | inr here ↦ subst IsWhole (sym (insert-here v u us here)) (at_page, whole)
]

pub insert-EndBelow :
    (hi : ℕ) (v : Vma) (us : List Vma) → v.end < hi → EndBelow hi us → EndBelow hi (vma_insert v us)
unfolding vma_insert
insert-EndBelow hi v [] lt below = (lt, tt)
insert-EndBelow hi v (u ∷ us) lt below = elim (Bool-cases (ltb u.start v.start)) [
  | inl before ↦
      subst (EndBelow hi) (sym (insert-before v u us before))
        (below.0, insert-EndBelow hi v us lt below.1)
  | inr here ↦ subst (EndBelow hi) (sym (insert-here v u us here)) (lt, below)
]
