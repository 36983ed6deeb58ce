-- ===== src/Heap/Backed.antt =====
-- The pages that `kheap_expand_to_addr` of kernel/heap.c puts behind the heap.
use la_os.Common.{
  ℕ, zero, suc, ◌+◌, ◌-◌, ◌*◌, ◌/◌, ◌<◌, ◌≡◌, Bool, true, false, ◌||◌, arith, sym, ap, subst, ◌∙◌,
  ◌==◌, ltb, Bool-cases, inl, inr, ok, returned, page_size,
}
use la_os.Heap.{heap_max_size, Kheap, Backing, expand_loop, kheap_expand_to_addr, uintptr_max}
use la_os.Heap.Expand.{Reaches, expand_to_addr-Reaches}

-- What the heap relies on: a mapping that succeeds maps its page, and no call unmaps another one.
pub record PagingLaws {W : Type 0} (k : Backing W) : Type 0 where
  pub alloc : (w : W) (u : ℕ) → k.is_mapped w u ≡ true → k.is_mapped (k.pmm_alloc w).1 u ≡ true
  pub free :
      (w w' : W) (phys u : ℕ)
      → k.pmm_free w phys ≡ ok w'
      → k.is_mapped w u ≡ true
      → k.is_mapped w' u ≡ true
  pub here :
      (w : W) (va phys : ℕ)
      → (k.vmm_map w va phys).0 ≡ true
      → k.is_mapped (k.vmm_map w va phys).1 va ≡ true
  pub there :
      (w : W) (va phys u : ℕ)
      → k.is_mapped w u ≡ true
      → k.is_mapped (k.vmm_map w va phys).1 u ≡ true

module _ {W : Type 0} (k : Backing W) (laws : PagingLaws k) where
  -- The pages between the old end and the new one are mapped, and all that were mapped still are.
  pub record IsBacked (h : Kheap) (w : W) (h' : Kheap) (w' : W) : Type 0 where
    pub kept : (u : ℕ) → k.is_mapped w u ≡ true → k.is_mapped w' u ≡ true
    pub new :
        (i : ℕ) → h.max + i * page_size < h'.max → k.is_mapped w' (h.max + i * page_size) ≡ true

  -- Nothing is added.
  IsBacked-here :
      (h h' : Kheap) (w w' : W)
      → h'.max ≡ h.max
      → ((u : ℕ) → k.is_mapped w u ≡ true → k.is_mapped w' u ≡ true)
      → IsBacked h w h' w'
  IsBacked-here h h' w w' end kept = record {
    kept = kept;
    new = λ i lt. absurd (omega (arith, end, lt));
  }

  IsBacked-same : (h h' : Kheap) (w w' : W) → (h ≡ h') × (w ≡ w') → IsBacked h w h' w'
  IsBacked-same h h' w w' e =
      IsBacked-here h h' w w' (ap (λ (x : Kheap). x.max) (sym e.0))
        (λ u on. subst (λ x. k.is_mapped x u ≡ true) e.1 on)

  -- A page that is mapped is added.
  IsBacked-page :
      (h h' : Kheap) (w w₂ w' : W)
      → ((u : ℕ) → k.is_mapped w u ≡ true → k.is_mapped w₂ u ≡ true)
      → k.is_mapped w₂ h.max ≡ true
      → IsBacked (record h { max = h.max + page_size }) w₂ h' w'
      → IsBacked h w h' w'
  IsBacked-page h h' w w₂ w' kept on b = record {
    kept = λ u m. b.kept u (kept u m);
    new = new_page;
  }
    where
      new_page :
          (i : ℕ) → h.max + i * page_size < h'.max → k.is_mapped w' (h.max + i * page_size) ≡ true
      new_page zero lt =
          ap (k.is_mapped w') {x = h.max + 0 * page_size} {y = h.max} (omega arith)
          ∙ b.kept h.max on
      new_page (suc i) lt =
          ap (k.is_mapped w') {x = h.max + suc i * page_size}
            {y = h.max + page_size + i * page_size} (omega arith)
          ∙ b.new i (omega (arith, lt))

  expand_loop-IsBacked :
      (target limit rounds : ℕ) (h h' : Kheap) (w w' : W) (grown : Bool)
      → expand_loop k target limit rounds h w ≡ ok (grown, h', w')
      → IsBacked h w h' w'
  unfolding expand_loop
  expand_loop-IsBacked target limit zero h h' w w' grown e = IsBacked-same h h' w w' (ground arith)
  expand_loop-IsBacked target limit (suc rounds) h h' w w' grown e =
      elim (Bool-cases (ltb h.max target)) [
        | inr done ↦ IsBacked-same h h' w w' (ground arith)
        | inl more ↦ elim (Bool-cases (ltb limit h.max || ltb (limit - h.max) page_size)) [
          | inl no_room ↦ IsBacked-same h h' w w' (ground arith)
          | inr room ↦ elim (Bool-cases (k.is_mapped w h.max)) [
            | inl there_already ↦
                IsBacked-page h h' w w w' (λ u m. m) there_already
                  (expand_loop-IsBacked target limit rounds next h' w w' grown (ground arith))
            | inr unmapped ↦ elim (Bool-cases ((k.pmm_alloc w).0 == 0)) [
              | inl no_page ↦
                  let e' : (h ≡ h') × ((k.pmm_alloc w).1 ≡ w') = ground arith in
                  IsBacked-here h h' w w' (ap (λ (x : Kheap). x.max) (sym e'.0))
                    (λ u m. subst (λ x. k.is_mapped x u ≡ true) e'.1 (laws.alloc w u m))
              | inr page ↦
                  let phys = (k.pmm_alloc w).0 in
                  let w₁ = (k.pmm_alloc w).1 in
                  let w₂ = (k.vmm_map w₁ h.max phys).1 in
                  elim (Bool-cases (k.vmm_map (k.pmm_alloc w).1 h.max (k.pmm_alloc w).0).0) [
                    | inl mapped ↦
                        IsBacked-page h h' w w₂ w'
                          (λ u m. laws.there w₁ h.max phys u (laws.alloc w u m))
                          (laws.here w₁ h.max phys mapped)
                          (expand_loop-IsBacked target limit rounds next h' w₂ w' grown
                            (ground arith))
                    | inr failed ↦
                        let (w₃, freed, stop) =
                          returned {B = Bool × Kheap × W}
                            (k.pmm_free (k.vmm_map (k.pmm_alloc w).1 h.max (k.pmm_alloc w).0).1
                              (k.pmm_alloc w).0)
                            (λ w₃. ok (false, h, w₃)) {r = (grown, h', w')} (ground arith) in
                        let e' : (h ≡ h') × (w₃ ≡ w') = ground arith in
                        IsBacked-here h h' w w' (ap (λ (x : Kheap). x.max) (sym e'.0)) (λ u m.
                          subst (λ x. k.is_mapped x u ≡ true) e'.1
                            (laws.free w₂ w₃ phys u freed
                              (laws.there w₁ h.max phys u (laws.alloc w u m))))
                  ]
            ]
          ]
        ]
      ]
    where
      next : Kheap
      next = record h { max = h.max + page_size }

  -- Let a mapping that succeeds map its page, and let no call unmap a page. A call that returns then
  -- adds pages to the heap, at most up to its limit, all of them mapped when it returns, and changes
  -- nothing else of it; no page is unmapped; and where it returns `true` the pages reach up to the
  -- address that was asked for.
  pub expand_to_addr-IsBacked :
      (h h' : Kheap) (w w' : W) (target_addr : ℕ) (grown : Bool)
      → kheap_expand_to_addr k h w target_addr ≡ ok (grown, h', w')
      → Reaches k h target_addr grown h' × IsBacked h w h' w'
  unfolding kheap_expand_to_addr
  expand_to_addr-IsBacked h h' w w' target_addr grown e = (
    expand_to_addr-Reaches k h h' w w' target_addr grown e,
    elim (Bool-cases (ltb (uintptr_max - heap_max_size) h.base)) [
      | inl no_limit ↦ IsBacked-same h h' w w' (ground arith)
      | inr limit ↦
          elim (Bool-cases
            (ltb target_addr h.base || ltb (uintptr_max - (page_size - 1)) target_addr)) [
              | inl out ↦ IsBacked-same h h' w w' (ground arith)
              | inr in_range ↦ elim (Bool-cases (ltb (h.base + heap_max_size) target)) [
                | inl too_high ↦ IsBacked-same h h' w w' (ground arith)
                | inr below ↦
                    expand_loop-IsBacked target (h.base + heap_max_size)
                      ((target - h.max + (page_size - 1)) / page_size) h h' w w' grown
                      (ground arith)
              ]
            ]
    ],
  )
    where
      target : ℕ
      target = (target_addr + page_size - 1) / page_size * page_size
