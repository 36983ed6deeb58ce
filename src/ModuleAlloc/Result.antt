-- ===== src/ModuleAlloc/Result.antt =====
-- `module_alloc` of kernel/module_alloc.c.
use la_os.Common.{
  ℕ, ◌+◌, ◌-◌, ◌*◌, ◌^◌, ◌≤◌, ◌<◌, ◌≡◌, refl, false, ◌||◌, ◌==◌, ltb, if-both, add64, sub64,
  page_size, arith, Option, none, some,
}
use la_os.ModuleAlloc.{
  Region, Pages, page_rounds, target_aligned, module_expand_to, rounded, module_alloc,
  module_alloc_checkpoint, invalid_checkpoint,
}
use la_os.ModuleAlloc.Grow.{IsWf, Grown, Reaches, expand_loop-Reaches}

-- The region after a call that changes no more than `mapped` and, on success, `brk`.
pub record Kept (s s' : Region) : Type 0 where
  pub base : s'.base ≡ s.base
  pub max : s'.max ≡ s.max
  pub brk : s.brk ≤ s'.brk
  pub mapped : s.mapped ≤ s'.mapped
  pub wf : IsWf s'

-- On success `size` bytes from the old `brk` on are handed out; on failure `brk` stays.
abbrev pub IsHanded : Region → (size : ℕ) → Option ℕ → Region → Type 0
IsHanded s size none s' = s'.brk ≡ s.brk
IsHanded s size (some addr) s' =
    (0 < size) × (addr ≡ s.brk) × (s.brk + size ≤ s'.brk) × (s'.brk < s.brk + size + 16)

pub valid :
    (s s' : Region) → IsWf s → Kept s s' → invalid_checkpoint (module_alloc_checkpoint s) s' ≡ false
valid s s' wf kept = ground (arith, wf.from_base, wf.mapped, kept.base, kept.brk, kept.mapped)

pub restored :
    (s s' : Region)
    → s'.base ≡ s.base
    → s'.max ≡ s.max
    → (record s' { brk = s.brk; mapped = s.mapped }) ≡ s
restored s s' base max = λ i. record { brk = s.brk; mapped = s.mapped; base = base i; max = max i }

module _ {W : Type 0} (pages : Pages W) where
  abbrev pub AllocResult : Region → (size : ℕ) → Option ℕ × Region × W → Type 0
  AllocResult s size r = Kept s r.1 × IsHanded s size r.0 r.1

  AllocResult-none : (s : Region) (size : ℕ) (w : W) → IsWf s → AllocResult s size (none, s, w)
  AllocResult-none s size w wf =
      (record { base = refl; max = refl; brk = omega arith; mapped = omega arith; wf = wf }, refl)

  AllocResult-failed :
      (s s' : Region) (size : ℕ) (w : W) → IsWf s → Grown s s' → AllocResult s size (none, s', w)
  AllocResult-failed s s' size w wf g = (
    record {
      base = g.base;
      max = g.max;
      brk = omega (arith, g.brk);
      mapped = g.more;
      wf = record {
        from_base = omega (arith, g.base, g.brk, wf.from_base);
        mapped = omega (arith, g.brk, g.more, wf.mapped);
        below = omega (arith, g.max, g.below);
        pages = g.pages;
        steps = omega (arith, g.brk, wf.steps);
        wide = omega (arith, g.max, wf.wide);
        small = omega (arith, g.max, wf.small);
      };
    },
    g.brk,
  )

  AllocResult-some :
      (s s' : Region) (size : ℕ) (w : W)
      → IsWf s
      → 0 < size
      → s.brk + size + 2 * page_size ≤ 2 ^ 64
      → Grown s s'
      → add64 s.brk (rounded size) ≤ s'.mapped
      → AllocResult s size (some s.brk, record s' { brk = add64 s.brk (rounded size) }, w)
  AllocResult-some s s' size w wf pos room g reach = (
    record {
      base = g.base;
      max = g.max;
      brk = omega arith;
      mapped = g.more;
      wf = record {
        from_base = omega (arith, g.base, wf.from_base);
        mapped = reach;
        below = omega (arith, g.max, g.below);
        pages = g.pages;
        steps = omega (arith, wf.steps);
        wide = omega (arith, g.max, wf.wide);
        small = omega (arith, g.max, wf.small);
      };
    },
    (pos, refl, omega arith, omega arith),
  )

  expand_to-Reaches :
      (s : Region) (w : W) (target : ℕ)
      → IsWf s
      → target + page_size ≤ 2 ^ 64
      → Reaches pages s target (module_expand_to pages s w target)
  unfolding module_expand_to
  expand_to-Reaches s w target wf room =
      expand_loop-Reaches pages (page_rounds s.mapped (target_aligned target)) s w target wf.below
        wf.pages wf.wide wf.small (omega arith) room (λ z. omega (arith, wf.pages))

  -- Let the region be well formed, and let the end of the allocation stay two pages away from the
  -- end of the address space. Then `module_alloc` keeps the region well formed; it returns the old
  -- break, with `size` bytes up to the new one that all lie below the mapped end, or it returns
  -- `NULL` and leaves the break.
  pub module_alloc-AllocResult :
      (s : Region) (w : W) (size : ℕ)
      → IsWf s
      → s.brk + size + 2 * page_size ≤ 2 ^ 64
      → AllocResult s size (module_alloc pages s w size)
  unfolding module_alloc
  module_alloc-AllocResult s w size wf room =
      let next = add64 s.brk (rounded size) in
      let call = module_expand_to pages s w next in
      let (grown, reach) = expand_to-Reaches s w next wf (omega arith) in
      if-both (AllocResult s size) (size == 0) (none, s, w) _ (λ z. AllocResult-none s size w wf)
        (λ some_bytes.
          if-both (AllocResult s size)
            (rounded size == 0 || ltb (sub64 s.max s.brk) (rounded size - 1)) (none, s, w) _
            (λ z. AllocResult-none s size w wf)
            (λ z.
              if-both (AllocResult s size) call.0 (some s.brk, record call.1 { brk = next }, call.2)
                (none, call.1, call.2)
                (λ done.
                  AllocResult-some s call.1 size call.2 wf (ground arith) room grown (reach done))
                (λ z'. AllocResult-failed s call.1 size call.2 wf grown)))
