-- ===== src/Vma.antt =====
-- kernel/vma.c: the list of mapped regions of a thread, `t->vma_list`, as a list in its order.
pub mod Order
pub mod Lookup
pub mod FindFree
pub mod Whole
mod Tests
use la_os.Common.{
  ℕ, ◌+◌, ◌-◌, ◌/◌, ◌*◌, ◌%◌, ◌^◌, Bool, true, false, ◌&&◌, ◌==◌, ltb, leb, if◌then◌else◌, Option,
  none, some, List, [], ◌∷◌, add64, align_down, page_size,
}

-- `struct vma`; `[start, end)` is the region.
pub record Vma : Type 0 where
  pub start : ℕ
  pub end : ℕ
  pub prot : ℕ
  pub flags : ℕ

-- The walk of `vma_alloc` to the place of `v`, and its link.
unfoldable pub vma_insert : Vma → List Vma → List Vma
vma_insert v [] = v ∷ []
vma_insert v (u ∷ us) = if ltb u.start v.start then u ∷ vma_insert v us else v ∷ u ∷ us

-- `have_memory` is whether `kmalloc` returns a block; `none` is `NULL`, with the list unchanged.
unfoldable pub vma_alloc :
    (have_memory : Bool) → List Vma → (start end prot flags : ℕ) → Option Vma × List Vma
vma_alloc have_memory us start end prot flags =
    let v : Vma = record { start = start; end = end; prot = prot; flags = flags } in
    if have_memory then (some v, vma_insert v us) else (none, us)

pub vma_find : List Vma → ℕ → Option Vma
vma_find [] addr = none
vma_find (u ∷ us) addr = if leb u.start addr && ltb addr u.end then some u else vma_find us addr

-- The loop of `vma_free`; `none` where no region has just these ends.
unfoldable pub free_loop : List Vma → (start end : ℕ) → Option (List Vma)
free_loop [] start end = none
free_loop (u ∷ us) start end =
    let rest = free_loop us start end in
    if u.start == start && u.end == end
    then some us
    else elim rest [ none ↦ none | some vs ↦ some (u ∷ vs) ]

-- `true` for the result 0, `false` for -1.
unfoldable pub vma_free : List Vma → (start length : ℕ) → Bool × List Vma
vma_free us start length = elim (free_loop us start (add64 start length)) [
  | some vs ↦ (true, vs)
  | none ↦ (false, us)
]

-- The regions that are freed, in order, and the list after it.
pub vma_destroy_all : List Vma → List Vma × List Vma
vma_destroy_all [] = ([], [])
vma_destroy_all (u ∷ us) = let (done, left) = vma_destroy_all us in (u ∷ done, left)

-- `USER_MMAP_BASE` and `USER_MMAP_END`.
abbrev pub user_mmap_base : ℕ
user_mmap_base = 0x0400_0000

abbrev pub user_mmap_end : ℕ
user_mmap_end = 0x1000_0000

-- `length` rounded up to pages.
abbrev pub page_length : ℕ → ℕ
page_length length = align_down (add64 length (page_size - 1)) page_size

unfoldable pub find_free_loop : (length cursor : ℕ) → List Vma → ℕ
find_free_loop length cursor [] = if leb (add64 cursor length) user_mmap_end then cursor else 0
find_free_loop length cursor (u ∷ us) =
    let rest = find_free_loop length u.end us in
    if leb (add64 cursor length) u.start && ltb cursor user_mmap_end
    then cursor
    else if leb user_mmap_end u.end
    then 0
    else rest

-- The list is that of the current thread; `none` where there is none.
unfoldable pub vma_find_free : Option (List Vma) → ℕ → ℕ
vma_find_free none length = 0
vma_find_free (some us) length = find_free_loop (page_length length) user_mmap_base us
