-- ===== src/ModuleAlloc/LastPage.antt =====
-- `module_alloc` of kernel/module_alloc.c at the end of the address space.
use la_os.Common.{
  ℕ, ◌+◌, ◌-◌, ◌%◌, ◌^◌, ◌≤◌, ◌<◌, ◌≡◌, ◌∙◌, ap, true, ◌||◌, ◌==◌, ltb, if◌then◌else◌, if-false,
  add64, sub64, page_size, arith, none, some,
}
use la_os.ModuleAlloc.{
  Region, Pages, expand_loop, page_rounds, target_aligned, module_expand_to, rounded, module_alloc,
}
use la_os.ModuleAlloc.Grow.{IsWf}

module _ {W : Type 0} (pages : Pages W) where
  nothing_mapped :
      (s : Region) (w : W) (target : ℕ)
      → page_rounds s.mapped (target_aligned target) ≡ 0
      → module_expand_to pages s w target ≡ (true, s, w)
  unfolding module_expand_to expand_loop
  nothing_mapped s w target none_left = ap (λ n. expand_loop pages n s w) none_left

  -- Let the region be well formed and have room for `size` bytes, rounded up, whose end lies in
  -- the last page of the address space, or at its end. Then the aligned target wraps to 0:
  -- `module_alloc` returns the old break without mapping any page, and the new break is the end
  -- modulo 2 ^ 64.
  pub module_alloc-last_page :
      (s : Region) (w : W) (size : ℕ)
      → IsWf s
      → 0 < size
      → size < 2 ^ 63
      → s.brk + rounded size ≤ s.max + 1
      → 2 ^ 64 < s.brk + rounded size + page_size
      → module_alloc pages s w size
        ≡ (some s.brk, record s { brk = (s.brk + rounded size) % 2 ^ 64 }, w)
  unfolding module_alloc
  module_alloc-last_page s w size wf pos small fits last =
      let next = add64 s.brk (rounded size) in
      let grow = nothing_mapped s w next (wraps s wf size pos small fits last) in
      if-false (size == 0) _ _ (ground arith)
      ∙ if-false (rounded size == 0 || ltb (sub64 s.max s.brk) (rounded size - 1)) _ _
          (ground (arith, wf.small))
      ∙ ap (λ r. if r.0 then (some s.brk, record r.1 { brk = next }, r.2) else (none, r.1, r.2))
          grow
    where
      wraps :
          (s : Region)
          → IsWf s
          → (size : ℕ) → 0 < size
          → size < 2 ^ 63
          → s.brk + rounded size ≤ s.max + 1
          → 2 ^ 64 < s.brk + rounded size + page_size
          → page_rounds s.mapped (target_aligned (add64 s.brk (rounded size))) ≡ 0
      wraps s wf size pos small fits last = omega (arith, wf.small)
