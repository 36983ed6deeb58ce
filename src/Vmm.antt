-- ===== src/Vmm.antt =====
-- kernel/vmm.c for x86-64, with the flags of kernel/arch/x86_64/vmm_arch.h: the page tables. Memory is
-- read by the physical address of a table and the index of an entry.
pub mod Tree
pub mod View
pub mod Enter
pub mod Block
pub mod Lookup
pub mod Write
pub mod Map
pub mod Unmap
mod Tests
use la_os.Common.{
  ℕ, zero, suc, ◌+◌, ◌-◌, ◌*◌, ◌/◌, ◌%◌, ◌^◌, Bool, true, false, not, ◌&&◌, ◌||◌, ◌==◌, ltb,
  if◌then◌else◌, Option, none, some, List, [], ◌∷◌, ◌++◌, Outcome, ok, panic, add64, sub64,
  page_size, align_down,
}

-- An entry: bits 12 to 51 are the number of the page, `PTE_ADDR_MASK`; `bit` are all others.
pub record Entry : Type 0 where
  pub frame : ℕ
  pub bit : ℕ → Bool

-- `PTE_PRESENT`, `PTE_WRITABLE`, `PTE_USER`, `PTE_HUGE`.
abbrev pub pte_present : ℕ
pte_present = 0

abbrev pub pte_writable : ℕ
pte_writable = 1

abbrev pub pte_user : ℕ
pte_user = 2

abbrev pub pte_huge : ℕ
pte_huge = 7

abbrev pub is_present : Entry → Bool
is_present e = e.bit pte_present

-- `PTE_IS_LEAF`.
abbrev pub is_leaf : Entry → Bool
is_leaf e = e.bit pte_present && e.bit pte_huge

-- The number that the bits 52 to 63 are.
pub bits_from : (rounds b : ℕ) → (ℕ → Bool) → ℕ
bits_from zero b bit = 0
bits_from (suc rounds) b bit =
    let rest = bits_from rounds (b + 1) bit in (if bit b then 2 ^ b else 0) + rest

abbrev pub high_part : (ℕ → Bool) → ℕ
high_part bit = bits_from 12 52 bit

-- `e & PTE_ADDR_MASK`.
abbrev pub table_of : Entry → ℕ
table_of e = e.frame * page_size

-- `e & ~0xFFF`, which keeps the bits above the address.
abbrev pub page_of : Entry → ℕ
page_of e = e.frame * page_size + high_part e.bit

-- `PML4_IDX`, `PDPT_IDX`, `PD_IDX`, `PT_IDX`.
abbrev pub pml4_idx : ℕ → ℕ
pml4_idx v = v / 2 ^ 39 % 512

abbrev pub pdpt_idx : ℕ → ℕ
pdpt_idx v = v / 2 ^ 30 % 512

abbrev pub pd_idx : ℕ → ℕ
pd_idx v = v / 2 ^ 21 % 512

abbrev pub pt_idx : ℕ → ℕ
pt_idx v = v / 2 ^ 12 % 512

abbrev pub Memory : Type 0
Memory = ℕ → ℕ → Entry

-- `supply` is what the next calls of `pmm_alloc` return, and `flushed` the pages that this
-- processor has flushed from its buffer, the last first.
pub record Vmm : Type 0 where
  pub mem : Memory
  pub supply : List ℕ
  pub flushed : List ℕ
  pub broadcasts : ℕ

abbrev pub write : Memory → (table i : ℕ) → Entry → Memory
write mem table i e t j = if t == table && (j == i) then e else mem t j

-- All entries of a table.
abbrev pub fill : Memory → (table : ℕ) → (ℕ → Entry) → Memory
fill mem table es t j = if t == table then es j else mem t j

abbrev pub zero_entry : Entry
zero_entry = record { frame = 0; bit = λ b. false }

-- `new_pt | PTE_PRESENT | PTE_WRITABLE | PTE_TABLE_USER_MASK(flags)`.
abbrev pub table_entry : (new_pt : ℕ) → (flags : ℕ → Bool) → Entry
table_entry new_pt flags = record {
  frame = new_pt / page_size % 2 ^ 40;
  bit = λ b. b == pte_present || b == pte_writable || (b == pte_user && flags pte_user);
}

-- `|= PTE_WRITABLE`, and `|= PTE_TABLE_USER_MASK(flags)`.
abbrev pub grant : Entry → (flags : ℕ → Bool) → Entry
grant e flags = record e {
  bit = λ b. e.bit b || b == pte_writable || (b == pte_user && flags pte_user);
}

abbrev pub next_page : List ℕ → ℕ
next_page [] = 0
next_page (n ∷ ns) = n

abbrev pub later_pages : List ℕ → List ℕ
later_pages [] = []
later_pages (n ∷ ns) = ns

-- The table of the next level, or `-1` where `pmm_alloc` has no page.
pub data Descent : Type 0 where
  into : (table : ℕ) → Vmm → Descent
  no_page : Vmm → Descent

-- The table is read from the entry.
abbrev pub follow : Vmm → (table i : ℕ) → Descent
follow v table i = into (table_of (v.mem table i)) v

abbrev pub enter_absent : Vmm → (table i : ℕ) → (flags : ℕ → Bool) → Descent
enter_absent v table i flags =
    let new_pt = next_page v.supply in
    let v' = record v { supply = later_pages v.supply } in
    if new_pt == 0
    then no_page v'
    else follow
        (record v' {
          mem = write (fill v'.mem new_pt (λ j. zero_entry)) table i (table_entry new_pt flags);
        })
        table i

abbrev pub enter_present : Vmm → (table i : ℕ) → (flags : ℕ → Bool) → Descent
enter_present v table i flags =
    follow (record v { mem = write v.mem table i (grant (v.mem table i) flags) }) table i

-- A block is split into 512 entries of `step` pages each; `flushes` are the flushed addresses.
abbrev pub enter_block :
    (step : ℕ) → (flushes : List ℕ) → Vmm → (table i : ℕ) → (flags : ℕ → Bool) → Descent
enter_block step flushes v table i flags =
    let new_pt = next_page v.supply in
    let block = v.mem table i in
    let v' = record v { supply = later_pages v.supply } in
    if new_pt == 0
    then no_page v'
    else enter_present
        (record v' {
          mem =
              write (fill v'.mem new_pt (λ j. record block { frame = block.frame + j * step }))
                table i (table_entry new_pt flags);
          flushed = flushes ++ v'.flushed;
        })
        table i flags

-- From a table of level 4, 3 and 2.
abbrev pub enter_pdpt : Vmm → (table i : ℕ) → (flags : ℕ → Bool) → Descent
enter_pdpt v table i flags =
    if not (is_present (v.mem table i))
    then enter_absent v table i flags
    else enter_present v table i flags

abbrev pub enter :
    (step : ℕ) → (flushes : List ℕ) → Vmm → (table i : ℕ) → (flags : ℕ → Bool) → Descent
enter step flushes v table i flags =
    if not (is_present (v.mem table i))
    then enter_absent v table i flags
    else if is_leaf (v.mem table i)
    then enter_block step flushes v table i flags
    else enter_present v table i flags

-- The result `true` is 0, and `false` is -1.
abbrev pub descend : Descent → (ℕ → Vmm → Outcome (Bool × Vmm)) → Outcome (Bool × Vmm)
descend (into table v) rest = rest table v
descend (no_page v) rest = ok (false, v)

-- The entry of the page.
abbrev pub map_leaf :
    (vaddr paddr : ℕ)
    → (flags : ℕ → Bool) → (overwrite_ok : Bool) → (pt : ℕ) → Vmm
    → Outcome (Bool × Vmm)
map_leaf vaddr paddr flags overwrite_ok pt v =
    if is_present (v.mem pt (pt_idx vaddr)) && not overwrite_ok
    then panic
    else ok (
      true,
      record v {
        mem =
            write v.mem pt (pt_idx vaddr)
              (record { frame = paddr / page_size % 2 ^ 40; bit = flags });
        flushed = vaddr ∷ v.flushed;
      },
    )

-- `__vmm_map`; `flags` has no bit of the address.
pub map_page :
    Vmm → (pml4 vaddr paddr : ℕ) → (flags : ℕ → Bool) → (overwrite_ok : Bool) → Outcome (Bool × Vmm)
map_page v pml4 vaddr paddr flags overwrite_ok =
    let page = align_down vaddr page_size in
    descend (enter_pdpt v pml4 (pml4_idx page) flags) (λ pdpt v3.
      descend (enter 512 [] v3 pdpt (pdpt_idx page) flags) (λ pd v2.
        descend (enter 1 (page ∷ []) v2 pd (pd_idx page) flags)
          (λ pt v1. map_leaf page paddr flags overwrite_ok pt v1)))

pub vmm_map : Vmm → (pml4 vaddr paddr : ℕ) → (flags : ℕ → Bool) → Outcome (Bool × Vmm)
vmm_map v pml4 vaddr paddr flags = map_page v pml4 vaddr paddr flags false

-- `vmm_get_phys` of a `pml4_phys` that is no virtual address; 0 is for a page that is not mapped.
pub vmm_get_phys : Memory → (pml4 vaddr : ℕ) → ℕ
vmm_get_phys mem pml4 vaddr =
    let pml4e = mem pml4 (pml4_idx vaddr) in
    let pdpte = mem (page_of pml4e) (pdpt_idx vaddr) in
    let pde = mem (page_of pdpte) (pd_idx vaddr) in
    let pte = mem (page_of pde) (pt_idx vaddr) in
    if not (is_present pml4e)
    then 0
    else if not (is_present pdpte)
    then 0
    else if is_leaf pdpte
    then pdpte.frame / 2 ^ 18 * 2 ^ 18 * page_size + high_part pdpte.bit + vaddr % 2 ^ 30
    else if not (is_present pde)
    then 0
    else if is_leaf pde
    then pde.frame / 512 * 512 * page_size + high_part pde.bit + vaddr % 2 ^ 21
    else if not (is_present pte)
    then 0
    else page_of pte

pub vmm_is_mapped : Memory → (pml4 vaddr : ℕ) → Bool
vmm_is_mapped mem pml4 vaddr =
    let pml4e = mem pml4 (pml4_idx vaddr) in
    let pdpte = mem (page_of pml4e) (pdpt_idx vaddr) in
    let pde = mem (page_of pdpte) (pd_idx vaddr) in
    let pte = mem (page_of pde) (pt_idx vaddr) in
    if not (is_present pml4e)
    then false
    else if not (is_present pdpte)
    then false
    else if is_leaf pdpte
    then true
    else if not (is_present pde)
    then false
    else if is_leaf pde
    then true
    else is_present pte

-- `__vmm_unmap`, which does not look for blocks on its way.
pub unmap_page : Vmm → (pml4 vaddr : ℕ) → Bool × Vmm
unmap_page v pml4 vaddr =
    let page = align_down vaddr page_size in
    let pml4e = v.mem pml4 (pml4_idx page) in
    let pdpte = v.mem (table_of pml4e) (pdpt_idx page) in
    let pde = v.mem (table_of pdpte) (pd_idx page) in
    if not (is_present pml4e)
    then (false, v)
    else if not (is_present pdpte)
    then (false, v)
    else if not (is_present pde)
    then (false, v)
    else (
      true,
      record v {
        mem = write v.mem (table_of pde) (pt_idx page) zero_entry;
        flushed = page ∷ v.flushed;
      },
    )

pub vmm_unmap : Vmm → (pml4 vaddr : ℕ) → Bool × Vmm
vmm_unmap v pml4 vaddr =
    let (done, v') = unmap_page v pml4 vaddr in
    (done, if done then record v' { broadcasts = v'.broadcasts + 1 } else v')
