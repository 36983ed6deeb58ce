-- ===== src/Vma/Lookup.antt =====
-- Look-up and removal of a region after `vma_alloc` of kernel/vma.c.
use la_os.Common.{
  ℕ, ◌+◌, ◌^◌, ◌≤◌, ◌<◌, ◌≡◌, ◌∙◌, true, false, ◌&&◌, ◌==◌, Bool-cases, inl, inr, ◌⊎◌, List, [],
  ◌∷◌, arith, ltb, leb, if◌then◌else◌, Option, some, sym, ap, refl, add64,
}
use la_os.Vma.{Vma, vma_insert, vma_alloc, vma_find, free_loop, vma_free}
use la_os.Vma.Order.{Clear, insert-before, insert-here}

-- The region that `addr` is looked for first.
abbrev pub new_or : Vma → List Vma → ℕ → Option Vma
new_or v us addr = if leb v.start addr && ltb addr v.end then some v else vma_find us addr

pub find-hit :
    (u : Vma) (us : List Vma) (addr : ℕ)
    → (leb u.start addr && ltb addr u.end) ≡ true
    → vma_find (u ∷ us) addr ≡ some u
unfolding vma_find
find-hit u us addr hit = rw hit

find-miss :
    (u : Vma) (us : List Vma) (addr : ℕ)
    → (leb u.start addr && ltb addr u.end) ≡ false
    → vma_find (u ∷ us) addr ≡ vma_find us addr
unfolding vma_find
find-miss u us addr miss = rw miss

clear-miss :
    (v u : Vma) (addr : ℕ)
    → (v.end ≤ u.start) ⊎ (u.end ≤ v.start)
    → (leb u.start addr && ltb addr u.end) ≡ true
    → (leb v.start addr && ltb addr v.end) ≡ false
clear-miss v u addr clear hit = ground arith

insert-vma_find :
    (v : Vma) (us : List Vma) (addr : ℕ)
    → Clear v.start v.end us
    → vma_find (vma_insert v us) addr ≡ new_or v us addr
unfolding vma_insert vma_find
insert-vma_find v [] addr c = refl
insert-vma_find v (u ∷ us) addr c = elim (Bool-cases (ltb u.start v.start)) [
  | inr here ↦ ap (λ l. vma_find l addr) (insert-here v u us here)
  | inl before ↦
      ap (λ l. vma_find l addr) (insert-before v u us before)
      ∙ elim (Bool-cases (leb u.start addr && ltb addr u.end)) [
        | inl hit ↦
            find-hit u (vma_insert v us) addr hit
            ∙ sym (rw (clear-miss v u addr c.0 hit) (find-hit u us addr hit))
        | inr miss ↦
            find-miss u (vma_insert v us) addr miss
            ∙ insert-vma_find v us addr c.1
            ∙ ap (λ r. if leb v.start addr && ltb addr v.end then some v else r)
                (sym (find-miss u us addr miss))
      ]
]

-- The search of `vma_free` passes a region that lies apart.
free-pass :
    (u v : Vma) (us vs : List Vma)
    → v.start < v.end
    → (v.end ≤ u.start) ⊎ (u.end ≤ v.start)
    → free_loop us v.start v.end ≡ some vs
    → free_loop (u ∷ us) v.start v.end ≡ some (u ∷ vs)
unfolding free_loop
free-pass u v us vs ne clear found =
    let other : (u.start == v.start && u.end == v.end) ≡ false = ground arith in rw (other, found)

free-here : (v : Vma) (us : List Vma) → free_loop (v ∷ us) v.start v.end ≡ some us
unfolding free_loop
free-here v us = let same : (v.start == v.start && v.end == v.end) ≡ true = ground arith in rw same

insert-free_loop :
    (v : Vma) (us : List Vma)
    → v.start < v.end
    → Clear v.start v.end us
    → free_loop (vma_insert v us) v.start v.end ≡ some us
unfolding vma_insert
insert-free_loop v [] ne c = free-here v []
insert-free_loop v (u ∷ us) ne c = elim (Bool-cases (ltb u.start v.start)) [
  | inl before ↦
      ap (λ l. free_loop l v.start v.end) (insert-before v u us before)
      ∙ free-pass u v (vma_insert v us) us ne c.0 (insert-free_loop v us ne c.1)
  | inr here ↦ ap (λ l. free_loop l v.start v.end) (insert-here v u us here) ∙ free-here v (u ∷ us)
]

vma_free-some :
    (us : List Vma) (start length : ℕ) (vs : List Vma)
    → free_loop us start (add64 start length) ≡ some vs
    → vma_free us start length ≡ (true, vs)
unfolding vma_free
vma_free-some us start length vs found = rw (found, vma_free)

-- After a region that overlaps no other is added, an address in it finds it, and any other address
-- finds what it found before.
pub vma_alloc-vma_find :
    (us : List Vma) (start end prot flags addr : ℕ)
    → Clear start end us
    → vma_find (vma_alloc true us start end prot flags).1 addr
      ≡ new_or (record { start = start; end = end; prot = prot; flags = flags }) us addr
unfolding vma_alloc
vma_alloc-vma_find us start end prot flags addr c = insert-vma_find _ us addr c

-- `vma_free` with the start and the length of a non-empty region that overlaps no other removes
-- just that region, and leaves the list as it was before `vma_alloc`.
pub vma_alloc-vma_free :
    (us : List Vma) (start length prot flags : ℕ)
    → 0 < length
    → start + length < 2 ^ 64
    → Clear start (start + length) us
    → vma_free (vma_alloc true us start (start + length) prot flags).1 start length ≡ (true, us)
unfolding vma_alloc
vma_alloc-vma_free us start length prot flags pos fits c =
    let v : Vma = record { start = start; end = start + length; prot = prot; flags = flags } in
    let sum : add64 start length ≡ start + length = ground arith in
    vma_free-some (vma_insert v us) start length us
      (ap (free_loop (vma_insert v us) start) sum ∙ insert-free_loop v us (omega arith) c)
