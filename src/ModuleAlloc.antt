-- ===== src/ModuleAlloc.antt =====
-- kernel/module_alloc.c: the allocator of addresses for loaded modules.
pub mod Grow
pub mod Result
pub mod LastPage
pub mod Rollback
mod Tests
use la_os.Common.{
  ℕ, zero, suc, ◌+◌, ◌-◌, ◌/◌, ◌*◌, ◌%◌, ◌^◌, Bool, true, false, ◌||◌, ◌&&◌, ◌==◌, ltb, leb,
  if◌then◌else◌, Option, none, some, add64, sub64, align_down, page_size,
}

-- The static variables of the file; the lock is left out.
pub record Region : Type 0 where
  pub brk : ℕ
  pub mapped : ℕ
  pub base : ℕ
  pub max : ℕ

-- The calls of kernel/pmm.c and kernel/vmm.c on the pages `W`, at the kernel's page table.
pub record Pages (W : Type 0) : Type 0 where
  pub pmm_alloc : W → ℕ × W  -- 0 is `NULL`
  pub pmm_free : W → ℕ → W
  pub vmm_map : W → (va phys : ℕ) → W
  pub vmm_get_phys : W → ℕ → ℕ
  pub vmm_unmap : W → ℕ → W

-- `module_alloc_init`, for the results of `arch_module_alloc_base` and `MODULE_REGION_SIZE`.
abbrev pub module_alloc_init : (arch_base region_size : ℕ) → Region
module_alloc_init arch_base region_size = record {
  brk = arch_base;
  mapped = arch_base;
  base = arch_base;
  max = sub64 (add64 arch_base region_size) 1;
}

abbrev pub module_region_contains : Region → ℕ → Bool
module_region_contains s address = leb s.base address && leb address s.max

-- `struct module_alloc_checkpoint`.
pub record Checkpoint : Type 0 where
  pub brk : ℕ
  pub mapped : ℕ

abbrev pub module_alloc_checkpoint : Region → Checkpoint
module_alloc_checkpoint s = record { brk = s.brk; mapped = s.mapped }

-- `target_aligned`; the sum can wrap.
abbrev pub target_aligned : ℕ → ℕ
target_aligned target = align_down (add64 target (page_size - 1)) page_size

-- The pages of 4 KiB that a loop from `lo` up to `hi` passes.
abbrev pub page_rounds : (lo hi : ℕ) → ℕ
page_rounds lo hi = (hi - lo + (page_size - 1)) / page_size

-- `need`; the sum can wrap.
abbrev pub rounded : ℕ → ℕ
rounded size = align_down (add64 size 15) 16

abbrev pub invalid_checkpoint : Checkpoint → Region → Bool
invalid_checkpoint c s =
    ltb c.brk s.base
    || ltb s.brk c.brk
    || ltb c.mapped s.base
    || ltb s.mapped c.mapped
    || ltb c.mapped c.brk

module _ {W : Type 0} (pages : Pages W) where
  -- The loop of `module_expand_to`, with a round for each page below the aligned target.
  pub expand_loop : (rounds : ℕ) → Region → W → Bool × Region × W
  expand_loop zero s w = (true, s, w)
  expand_loop (suc rounds) s w =
      let (phys, w₁) = pages.pmm_alloc w in
      let grown =
        expand_loop rounds (record s { mapped = add64 s.mapped page_size })
          (pages.vmm_map w₁ s.mapped phys) in
      if ltb (sub64 s.max (page_size - 1)) s.mapped
      then (false, s, w)
      else if phys == 0
      then (false, s, w₁)
      else grown

  pub module_expand_to : Region → W → (target : ℕ) → Bool × Region × W
  module_expand_to s w target = expand_loop (page_rounds s.mapped (target_aligned target)) s w

  -- The address, or `none` for `NULL`.
  pub module_alloc : Region → W → (size : ℕ) → Option ℕ × Region × W
  module_alloc s w size =
      let next = add64 s.brk (rounded size) in
      let (grown, s', w') = module_expand_to s w next in
      if size == 0
      then (none, s, w)
      else if rounded size == 0 || ltb (sub64 s.max s.brk) (rounded size - 1)
      then (none, s, w)
      else if grown
      then (some s.brk, record s' { brk = next }, w')
      else (none, s', w')

  -- The loop of `module_alloc_rollback`.
  pub unmap_loop : (rounds va : ℕ) → W → W
  unmap_loop zero va w = w
  unmap_loop (suc rounds) va w =
      let phys = pages.vmm_get_phys w va in
      let freed = pages.pmm_free (pages.vmm_unmap w va) phys in
      unmap_loop rounds (va + page_size) (if phys == 0 then w else freed)

  pub module_alloc_rollback : Checkpoint → Region → W → Region × W
  module_alloc_rollback c s w = if invalid_checkpoint c s then (s, w) else (
    record s { brk = c.brk; mapped = c.mapped },
    unmap_loop (page_rounds c.mapped s.mapped) c.mapped w,
  )
