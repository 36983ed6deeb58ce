-- ===== src/Mmap.antt =====
-- kernel/arch/x86_64/syscall.c: the calls that map and unmap memory of a user process. Its page
-- tables are the pages that they map.
pub mod Rollback
pub mod Round
pub mod Loop
pub mod Unmap
pub mod Orderly
pub mod Result
mod Tests
use la_os.Common.{
  ℕ, zero, suc, ◌+◌, ◌-◌, ◌*◌, ◌/◌, ◌%◌, ◌^◌, bit_or, Bool, true, false, not, ◌&&◌, ◌||◌, ◌==◌, ltb,
  leb, if◌then◌else◌, Option, none, some, List, [], ◌∷◌, Outcome, ok, panic, ◌>>=◌, add64,
  align_down, page_size,
}
use la_os.Vma.{Vma, vma_alloc, vma_find, vma_free, vma_find_free}

-- A page that is mapped: the address without its flags, `PTE_WRITABLE` and `PTE_NX`.
pub record Page : Type 0 where
  pub phys : ℕ
  pub writable : Bool
  pub no_exec : Bool

-- The thread's regions and pages, and what the allocators do: `memory` is whether `kmalloc` has a
-- block, `supply` is what the next calls of `pmm_alloc` return, and `tables` is how many tables are
-- missing at the next calls of `vmm_map_user`. `taken` counts how often a page has been given by
-- `pmm_alloc` to this file, `in_tables` how often to `vmm_map_user` for a table, and `freed` how
-- often a page has been given to `pmm_free`.
pub record Process : Type 0 where
  pub vmas : List Vma
  pub pages : ℕ → Option Page
  pub memory : Bool
  pub supply : List ℕ
  pub tables : List ℕ
  pub taken : ℕ → ℕ
  pub in_tables : ℕ → ℕ
  pub freed : ℕ → ℕ

abbrev pub set {ℓ} : {A : Type ℓ} → (ℕ → A) → ℕ → A → ℕ → A
set f a x b = if b == a then x else f b

abbrev pub first_page : List ℕ → ℕ
first_page [] = 0
first_page (n ∷ ns) = n

abbrev pub other_pages : List ℕ → List ℕ
other_pages [] = []
other_pages (n ∷ ns) = ns

abbrev pub pmm_alloc : Process → ℕ × Process
pmm_alloc s =
    let phys = first_page s.supply in
    (
      phys,
      record s {
        supply = other_pages s.supply;
        taken = if phys == 0 then s.taken else set s.taken phys (s.taken phys + 1);
      },
    )

-- `pmm_free` panics at a page that is not out.
abbrev pub pmm_free : Process → ℕ → Outcome Process
pmm_free s phys =
    if ltb (s.freed phys) (s.taken phys + s.in_tables phys)
    then ok (record s { freed = set s.freed phys (s.freed phys + 1) })
    else panic

-- The pages for `missing` tables; those that are found stay, also where the next is not.
pub take_tables : (missing : ℕ) → Process → Bool × Process
take_tables zero s = (true, s)
take_tables (suc missing) s =
    let phys = first_page s.supply in
    let s' = record s { supply = other_pages s.supply } in
    let rest =
      take_tables missing (record s' { in_tables = set s.in_tables phys (s.in_tables phys + 1) }) in
    if phys == 0 then (false, s') else rest

-- `vmm_map_user`: it panics at a page that is mapped; `true` is 0.
abbrev pub map_free : Process → (va : ℕ) → Page → Option Page → Outcome (Bool × Process)
map_free s va page (some old) = panic
map_free s va page none =
    let (found, s') =
      take_tables (first_page s.tables) (record s { tables = other_pages s.tables }) in
    ok (if found then (true, record s' { pages = set s'.pages va (some page) }) else (false, s'))

abbrev pub vmm_map_user : Process → (va : ℕ) → Page → Outcome (Bool × Process)
vmm_map_user s va page = map_free s va page (s.pages va)

-- `vmm_get_phys(...) & PTE_ADDR_MASK`.
abbrev pub phys_of : Option Page → ℕ
phys_of none = 0
phys_of (some page) = page.phys

abbrev pub vmm_unmap : Process → (va : ℕ) → Process
vmm_unmap s va = record s { pages = set s.pages va none }

-- The body of the loops that unmap: the rollback of `do_mmap` and `do_munmap`.
abbrev pub release : Process → (va : ℕ) → Outcome Process
release s va =
    let phys = phys_of (s.pages va) in
    let s' = vmm_unmap s va in if phys == 0 then ok s' else pmm_free s' phys

-- `rounds` pages from `va` on.
pub release_loop : (rounds va : ℕ) → Process → Outcome Process
release_loop zero va s = ok s
release_loop (suc rounds) va s = release s va >>= λ s'. release_loop rounds (va + page_size) s'

-- The page that `do_mmap` maps, with the flags from `prot`.
abbrev pub page_for : (phys prot : ℕ) → Page
page_for phys prot = record {
  phys = phys;
  writable = prot / 2 % 2 == 1;
  no_exec = not (prot / 4 % 2 == 1);
}

-- The label `rollback`: `mapped` pages have been mapped from `vaddr` on; the result is 0.
pub rollback : (mapped vaddr length : ℕ) → Process → Outcome (ℕ × Process)
rollback mapped vaddr length s = release_loop mapped vaddr s >>= λ s'.
    ok (0, record s' { vmas = (vma_free s'.vmas vaddr length).1 })

-- The rest of a round once `vmm_map_user` has returned.
abbrev pub mapped_or_free : (phys : ℕ) → Bool × Process → Outcome (Bool × Process)
mapped_or_free phys (true, s) = ok (true, s)
mapped_or_free phys (false, s) = pmm_free s phys >>= λ s'. ok (false, s')

-- A round of the loop: whether the page is mapped.
pub map_round : Process → (cursor prot : ℕ) → Outcome (Bool × Process)
map_round s cursor prot =
    let (phys, s') = pmm_alloc s in
    if phys == 0
    then ok (false, s')
    else vmm_map_user s' cursor (page_for phys prot) >>= λ r. mapped_or_free phys r

-- The loop, with `rounds` pages left and `mapped` pages mapped.
pub map_loop : (rounds mapped vaddr length prot : ℕ) → Process → Outcome (ℕ × Process)
map_loop zero mapped vaddr length prot s = ok (vaddr, s)
map_loop (suc rounds) mapped vaddr length prot s =
    map_round s (vaddr + mapped * page_size) prot >>= λ r.
    let rest = map_loop rounds (mapped + 1) vaddr length prot r.1 in
    if r.0 then rest else rollback mapped vaddr length r.1

-- `MAP_LAZY`.
abbrev pub is_lazy : (flags : ℕ) → Bool
is_lazy flags = flags / 2 ^ 8 % 2 == 1

-- `do_mmap` of a thread with page tables of its own; the result 0 is for a failure.
pub do_mmap : Process → (length prot flags : ℕ) → Outcome (ℕ × Process)
do_mmap s length prot flags =
    let bytes = align_down (add64 length (page_size - 1)) page_size in
    let vaddr = vma_find_free (some s.vmas) bytes in
    let (v, us) =
      vma_alloc s.memory s.vmas vaddr (add64 vaddr bytes) (prot % 2 ^ 32)
        (bit_or 0x22 (flags % 2 ^ 32)) in
    let s' = record s { vmas = us } in
    let mapped = map_loop (bytes / page_size) 0 vaddr bytes prot s' in
    if ltb (2 ^ 64 - 1 - (page_size - 1)) length
    then ok (0, s)
    else if bytes == 0
    then ok (0, s)
    else if vaddr == 0 || ltb (2 ^ 64 - 1 - bytes) vaddr
    then ok (0, s)
    else elim v [ none ↦ ok (0, s') | some u ↦ if is_lazy flags then ok (vaddr, s') else mapped ]

-- `do_munmap`; `true` is 0.
abbrev pub is_region : Option Vma → (start end : ℕ) → Bool
is_region none start end = false
is_region (some v) start end = v.start == start && v.end == end

pub do_munmap : Process → (addr length : ℕ) → Outcome (Bool × Process)
do_munmap s addr length =
    let bytes = align_down (add64 length (page_size - 1)) page_size in
    let start = align_down addr page_size in
    let unmapped = release_loop (bytes / page_size) start s >>= λ s'.
    ok ((vma_free s'.vmas start bytes).0, record s' { vmas = (vma_free s'.vmas start bytes).1 }) in
    if bytes == 0
    then ok (false, s)
    else if ltb (2 ^ 64 - 1 - start) bytes
    then ok (false, s)
    else if not (is_region (vma_find s.vmas start) start (start + bytes))
    then ok (false, s)
    else unmapped
