-- ===== src/Heap/Boot.antt =====
-- `kheap_init` of kernel/heap.c.
use la_os.Common.{
  ℕ, ◌+◌, ◌%◌, ◌^◌, ◌<◌, ◌≡◌, Bool, true, false, [], ◌∷◌, arith, refl, if◌then◌else◌, subst,
  Outcome, ok, panic, ◌>>=◌, returned, page_size,
}
use la_os.Heap.{Block, Kheap, Backing, heap_max_size, kheap_magic, kheap_expand_to_addr}
use la_os.Heap.Tiled.{live, IsWf}
use la_os.Heap.Expand.{expand_to_addr-Reaches}

-- `kheap_g` before the first page; its head lies at `head_at`, and `vbase` is KHEAP_VBASE.
abbrev pub empty_heap : (vbase head_at : ℕ) → Kheap
empty_heap vbase head_at = record {
  base = vbase;
  max = vbase;
  count = 1;
  head = record { addr = head_at; magic = kheap_magic; is_free = false; size = 0; id = 0 };
  blocks = [];
}

abbrev pub first_block : ℕ → Block
first_block base = record {
  addr = base;
  magic = kheap_magic;
  is_free = true;
  size = page_size;
  id = 0;
}

module _ {W : Type 0} (k : Backing W) where
  abbrev require_page : Bool × Kheap × W → Outcome (Kheap × W)
  require_page (mapped, h, w) =
      if mapped then ok (record h { blocks = first_block h.base ∷ [] }, w) else panic

  unfoldable pub kheap_init : (vbase head_at : ℕ) → W → Outcome (Kheap × W)
  kheap_init vbase head_at w =
      kheap_expand_to_addr k (empty_heap vbase head_at) w (vbase + page_size) >>= require_page

  -- Where `kheap_init` returns, the heap satisfies its invariant, and nothing is handed out.
  pub kheap_init-IsWf :
      (vbase head_at : ℕ) (w w' : W) (h : Kheap)
      → vbase % page_size ≡ 0
      → vbase + heap_max_size < 2 ^ 64
      → kheap_init vbase head_at w ≡ ok (h, w')
      → IsWf h × (live h.blocks ≡ []) × (h.base ≡ vbase)
  unfolding kheap_init
  kheap_init-IsWf vbase head_at w w' h al fits e =
      let (r, e₁, e₂) =
        returned (kheap_expand_to_addr k (empty_heap vbase head_at) w (vbase + page_size))
          require_page {r = (h, w')} e in
      after r.0 r.1 r.2 e₁ e₂
    where
      after :
          (mapped : Bool) (h₁ : Kheap) (w₁ : W)
          → kheap_expand_to_addr k (empty_heap vbase head_at) w (vbase + page_size)
            ≡ ok (mapped, h₁, w₁)
          → require_page (mapped, h₁, w₁) ≡ ok (h, w')
          → IsWf h × (live h.blocks ≡ []) × (h.base ≡ vbase)
      after false h₁ w₁ e₁ e₂ = absurd (ground arith)
      after true h₁ w₁ e₁ e₂ =
          let same : record h₁ { blocks = first_block h₁.base ∷ [] } ≡ h = ground arith in
          let (g, reach) =
            expand_to_addr-Reaches k (empty_heap vbase head_at) h₁ w w₁ (vbase + page_size) true
              e₁ in
          subst (λ x. IsWf x × (live x.blocks ≡ []) × (x.base ≡ vbase)) same
            (
              record {
                based = omega (arith, g.base);
                fits = omega (arith, g.base);
                pages = g.pages al;
                below = omega (arith, g.below, g.base);
                last = h₁.base + page_size;
                mapped = omega (arith, reach refl, g.base);
                tiled = (refl, refl, omega arith, omega arith, refl, refl);
                some_block = λ x. cc;
                head_used = rw (g.head) refl;
              },
              refl,
              g.base,
            )
