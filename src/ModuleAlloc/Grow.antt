-- ===== src/ModuleAlloc/Grow.antt =====
-- What `module_expand_to` of kernel/module_alloc.c leaves of the region.
use la_os.Common.{
  ℕ, zero, suc, ◌+◌, ◌-◌, ◌*◌, ◌%◌, ◌^◌, ◌≤◌, ◌<◌, ◌≡◌, refl, Bool, true, false, ◌==◌, ltb, if-both,
  add64, sub64, page_size, arith,
}
use la_os.ModuleAlloc.{Region, Pages, expand_loop}

-- The region is pages of the address space, mapped from its base on and behind all that is handed
-- out.
pub record IsWf (s : Region) : Type 0 where
  pub from_base : s.base ≤ s.brk
  pub mapped : s.brk ≤ s.mapped
  pub below : s.mapped ≤ s.max + 1
  pub pages : s.mapped % page_size ≡ 0
  pub steps : s.brk % 16 ≡ 0
  pub wide : page_size ≤ s.max
  pub small : s.max < 2 ^ 64

-- `s'` is `s` with more pages.
pub record Grown (s s' : Region) : Type 0 where
  pub brk : s'.brk ≡ s.brk
  pub base : s'.base ≡ s.base
  pub max : s'.max ≡ s.max
  pub more : s.mapped ≤ s'.mapped
  pub below : s'.mapped ≤ s.max + 1
  pub pages : s'.mapped % page_size ≡ 0

module _ {W : Type 0} (pages : Pages W) where
  -- On success the pages reach up to the target.
  abbrev pub Reaches : Region → (target : ℕ) → Bool × Region × W → Type 0
  Reaches s target r = Grown s r.1 × (r.0 ≡ true → target ≤ r.1.mapped)

  Reaches-here :
      (s : Region) (target : ℕ) (b : Bool) (w : W)
      → s.mapped ≤ s.max + 1
      → s.mapped % page_size ≡ 0
      → (b ≡ true → target ≤ s.mapped)
      → Reaches s target (b, s, w)
  Reaches-here s target b w below whole reach = (
    record {
      brk = refl;
      base = refl;
      max = refl;
      more = omega arith;
      below = below;
      pages = whole;
    },
    reach,
  )

  Reaches-page :
      (s : Region) (target : ℕ) (r : Bool × Region × W)
      → s.mapped + page_size < 2 ^ 64
      → Reaches (record s { mapped = add64 s.mapped page_size }) target r
      → Reaches s target r
  Reaches-page s target (b, s', w) room (g, reach) = (
    record {
      brk = g.brk;
      base = g.base;
      max = g.max;
      more = omega (arith, g.more);
      below = g.below;
      pages = g.pages;
    },
    reach,
  )

  pub expand_loop-Reaches :
      (rounds : ℕ) (s : Region) (w : W) (target : ℕ)
      → s.mapped ≤ s.max + 1
      → s.mapped % page_size ≡ 0
      → page_size ≤ s.max
      → s.max < 2 ^ 64
      → target ≤ s.mapped + rounds * page_size
      → target + page_size ≤ 2 ^ 64
      → (0 < rounds → s.mapped + rounds * page_size + page_size ≤ 2 ^ 64)
      → Reaches s target (expand_loop pages rounds s w)
  unfolding expand_loop
  expand_loop-Reaches zero s w target below whole wide small reach top room =
      Reaches-here s target true w below whole (λ e. omega arith)
  expand_loop-Reaches (suc rounds) s w target below whole wide small reach top room =
      let fits = room (omega arith) in
      let phys = (pages.pmm_alloc w).0 in
      let w₁ = (pages.pmm_alloc w).1 in
      let s⁺ = record s { mapped = add64 s.mapped page_size } in
      if-both (Reaches s target) (ltb (sub64 s.max (page_size - 1)) s.mapped) (false, s, w) _
        (λ z. Reaches-here s target false w below whole (λ e. cc))
        (λ inside.
          if-both (Reaches s target) (phys == 0) (false, s, w₁) _
            (λ z. Reaches-here s target false w₁ below whole (λ e. cc))
            (λ z.
              Reaches-page s target (expand_loop pages rounds s⁺ (pages.vmm_map w₁ s.mapped phys))
                (omega arith)
                (expand_loop-Reaches rounds s⁺ (pages.vmm_map w₁ s.mapped phys) target
                  (ground arith) (omega arith) wide small (omega arith) top (λ z'. omega arith))))
