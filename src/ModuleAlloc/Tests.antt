-- ===== src/ModuleAlloc/Tests.antt =====
-- kernel/module_alloc.c at concrete inputs: the region of x86-64, over pages that never run out.
use la_os.Common.{ℕ, ◌+◌, ◌-◌, ◌%◌, ◌^◌, ◌≡◌, refl, some, if◌then◌else◌, arith}
use la_os.ModuleAlloc.{
  Region, Pages, module_alloc_init, rounded, expand_loop, module_expand_to, module_alloc,
}
use la_os.ModuleAlloc.Grow.{IsWf}
use la_os.ModuleAlloc.Result.{AllocResult, module_alloc-AllocResult}
use la_os.ModuleAlloc.Rollback.{same_page, one}
use la_os.ModuleAlloc.LastPage.{module_alloc-last_page}

-- The next page, the translations, and how often each page is out.
abbrev World : Type 0
World = ℕ × (ℕ → ℕ) × (ℕ → ℕ)

abbrev plenty : Pages World
plenty = record {
  pmm_alloc = λ w. (w.0 + 0x1000, (w.0 + 0x1000, w.1, λ q. one q (w.0 + 0x1000) + w.2 q));
  pmm_free = λ w phys. (w.0, w.1, λ q. w.2 q - one q phys);
  vmm_map = λ w va phys. (w.0, λ u. if same_page u va then phys else w.1 u, w.2);
  vmm_get_phys = λ w va. w.1 va;
  vmm_unmap = λ w va. (w.0, λ u. if same_page u va then 0 else w.1 u, w.2);
}

abbrev out : World → ℕ → ℕ
out w q = w.2 q

abbrev empty : World
empty = (0x10_0000, λ u. 0, λ q. 0)

-- `MODULE_REGION_DEFAULT_BASE` and `MODULE_REGION_SIZE`.
abbrev fresh : Region
fresh = module_alloc_init 0xffff_ffff_c000_0000 0x4000_0000

fresh-IsWf : IsWf fresh
fresh-IsWf = record {
  from_base = omega arith;
  mapped = omega arith;
  below = omega arith;
  pages = omega arith;
  steps = omega arith;
  wide = omega arith;
  small = omega arith;
}

-- 5000 bytes take two pages.
abbrev second : ℕ
second = 0xffff_ffff_c000_1000

two_pages :
    ((module_alloc plenty fresh empty 5000).2.1 second ≡ 0x10_2000)
    × (out (module_alloc plenty fresh empty 5000).2 0x10_2000 ≡ 1)
unfolding module_alloc module_expand_to expand_loop
two_pages = (refl, refl)

module_alloc-AllocResult_example :
    AllocResult plenty fresh 5000 (module_alloc plenty fresh empty 5000)
module_alloc-AllocResult_example =
    module_alloc-AllocResult plenty fresh empty 5000 fresh-IsWf (omega arith)

module_alloc-last_page_example :
    module_alloc plenty fresh empty 0x4000_0000
    ≡ (some fresh.brk, record fresh { brk = (fresh.brk + rounded 0x4000_0000) % 2 ^ 64 }, empty)
module_alloc-last_page_example =
    module_alloc-last_page plenty fresh empty 0x4000_0000 fresh-IsWf (omega arith) (omega arith)
      (omega arith) (omega arith)
