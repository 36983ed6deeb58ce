-- ===== src/Heap/Expand.antt =====
-- What `kheap_expand_to_addr` of kernel/heap.c leaves of the heap.
use la_os.Common.{
  ℕ, zero, suc, ◌+◌, ◌-◌, ◌*◌, ◌/◌, ◌%◌, ◌≤◌, ◌≡◌, Bool, true, false, ◌||◌, arith, refl, inl, inr,
  ◌==◌, ltb, Bool-cases, subst₂, ok, returned, page_size,
}
use la_os.Heap.{heap_max_size, Kheap, Backing, expand_loop, kheap_expand_to_addr, uintptr_max}

-- The heap `h'` is `h` with more pages.
pub record Grown (h h' : Kheap) : Type 0 where
  pub base : h'.base ≡ h.base
  pub head : h'.head ≡ h.head
  pub blocks : h'.blocks ≡ h.blocks
  pub more : h.max ≤ h'.max
  pub pages : h.max % page_size ≡ 0 → h'.max % page_size ≡ 0
  pub below : h.max ≤ h.base + heap_max_size → h'.max ≤ h.base + heap_max_size

Grown-refl : (h : Kheap) → Grown h h
Grown-refl h = record {
  base = refl;
  head = refl;
  blocks = refl;
  more = omega arith;
  pages = λ e. e;
  below = λ le. le;
}

Grown-page :
    (h h' : Kheap)
    → page_size ≤ h.base + heap_max_size - h.max
    → Grown (record h { max = h.max + page_size }) h'
    → Grown h h'
Grown-page h h' room g = record {
  base = g.base;
  head = g.head;
  blocks = g.blocks;
  more = omega (arith, g.more);
  pages = λ e. g.pages (omega arith);
  below = λ le. g.below (omega arith);
}

module _ {W : Type 0} (k : Backing W) where
  -- On success the pages reach up to the target.
  abbrev pub Reaches : Kheap → (target : ℕ) → Bool → Kheap → Type 0
  Reaches h target grown h' = Grown h h' × (grown ≡ true → target ≤ h'.max)

  Reaches-here :
      (target : ℕ) (g grown : Bool) (h h' : Kheap)
      → (g ≡ grown) × (h ≡ h')
      → (g ≡ true → target ≤ h.max)
      → Reaches h target grown h'
  Reaches-here target g grown h h' e reach =
      subst₂ (λ x y. Reaches h target y x) e.1 e.0 (Grown-refl h, reach)

  expand_loop-Reaches :
      (target limit rounds : ℕ) (h h' : Kheap) (w w' : W) (grown : Bool)
      → limit ≡ h.base + heap_max_size
      → target ≤ h.max + rounds * page_size
      → expand_loop k target limit rounds h w ≡ ok (grown, h', w')
      → Reaches h target grown h'
  unfolding expand_loop
  expand_loop-Reaches target limit zero h h' w w' grown l enough e =
      Reaches-here target true grown h h' (ground arith) (λ _. omega arith)
  expand_loop-Reaches target limit (suc rounds) h h' w w' grown l enough e =
      elim (Bool-cases (ltb h.max target)) [
        | inr done ↦ Reaches-here target true grown h h' (ground arith) (λ _. ground arith)
        | inl more ↦ elim (Bool-cases (ltb limit h.max || ltb (limit - h.max) page_size)) [
          | inl no_room ↦ Reaches-here target false grown h h' (ground arith) (λ x. cc)
          | inr room ↦ elim (Bool-cases (k.is_mapped w h.max)) [
            | inl there_already ↦ step (ground arith) (
                expand_loop-Reaches target limit rounds next h' w w' grown l (omega arith)
                  (ground arith))
            | inr unmapped ↦ elim (Bool-cases ((k.pmm_alloc w).0 == 0)) [
              | inl no_page ↦ Reaches-here target false grown h h' (ground arith) (λ x. cc)
              | inr page ↦
                  elim (Bool-cases (k.vmm_map (k.pmm_alloc w).1 h.max (k.pmm_alloc w).0).0) [
                    | inl mapped ↦ step (ground arith) (
                        expand_loop-Reaches target limit rounds next h'
                          (k.vmm_map (k.pmm_alloc w).1 h.max (k.pmm_alloc w).0).1 w' grown l
                          (omega arith) (ground arith))
                    | inr failed ↦
                        let (_, _, stop) =
                          returned {B = Bool × Kheap × W}
                            (k.pmm_free (k.vmm_map (k.pmm_alloc w).1 h.max (k.pmm_alloc w).0).1
                              (k.pmm_alloc w).0)
                            (λ w₃. ok (false, h, w₃)) {r = (grown, h', w')} (ground arith) in
                        Reaches-here target false grown h h' (ground arith) (λ x. cc)
                  ]
            ]
          ]
        ]
      ]
    where
      next : Kheap
      next = record h { max = h.max + page_size }

      step :
          page_size ≤ h.base + heap_max_size - h.max
          → Reaches next target grown h'
          → Reaches h target grown h'
      step room (g, reach) = (Grown-page h h' room g, reach)

  -- A call that returns adds pages to the heap, at most up to its limit, and changes nothing else
  -- of it; where it returns `true` the pages reach up to the address that was asked for.
  pub expand_to_addr-Reaches :
      (h h' : Kheap) (w w' : W) (target_addr : ℕ) (grown : Bool)
      → kheap_expand_to_addr k h w target_addr ≡ ok (grown, h', w')
      → Reaches h target_addr grown h'
  unfolding kheap_expand_to_addr
  expand_to_addr-Reaches h h' w w' target_addr grown e =
      elim (Bool-cases (ltb (uintptr_max - heap_max_size) h.base)) [
        | inl no_limit ↦ Reaches-here target_addr false grown h h' (ground arith) (λ x. cc)
        | inr limit ↦
            elim (Bool-cases
              (ltb target_addr h.base || ltb (uintptr_max - (page_size - 1)) target_addr)) [
                | inl out ↦ Reaches-here target_addr false grown h h' (ground arith) (λ x. cc)
                | inr in_range ↦ elim (Bool-cases (ltb (h.base + heap_max_size) target)) [
                  | inl above ↦ Reaches-here target_addr false grown h h' (ground arith) (λ x. cc)
                  | inr below ↦
                      let (g, reach) =
                        expand_loop-Reaches target (h.base + heap_max_size)
                          ((target - h.max + (page_size - 1)) / page_size) h h' w w' grown refl
                          (omega arith) (ground arith) in
                      (g, λ yes_grown. omega (arith, reach yes_grown))
                ]
              ]
      ]
    where
      target : ℕ
      target = (target_addr + page_size - 1) / page_size * page_size
