-- ===== src/Heap/Alloc.antt =====
-- What `kmalloc` of kernel/heap.c returns, and what it leaves of the heap.
use la_os.Common.{
  ℕ, ◌+◌, ◌-◌, ◌%◌, ◌≤◌, ◌≡◌, ◌≢◌, ◌⊎◌, Bool, true, false, ◌||◌, List, [], ◌∷◌, arith, refl, inl,
  inr, ◌==◌, ltb, Bool-cases, Option-cases, sym, subst, subst₂, ok, returned,
}
use la_os.Heap.{
  Block, header, alignment, heap_max_size, Kheap, Backing, kheap_expand_to_addr, uintptr_max,
  total_needed, taken, first_fit, last_block, add_last, place_new, kmalloc_new, kmalloc,
}
use la_os.Heap.Tiled.{Tiled, Tiled-le, Tiled-aligned, live, Inserted, here, there, IsWf}
use la_os.Heap.Fit.{Carved, first_fit-Carved}
use la_os.Heap.Expand.{Grown, expand_to_addr-Reaches}

-- The payload at `ptr` has room for `size` bytes, is aligned, lies in the mapped part of the heap,
-- and its block is the only new one among those handed out.
pub record Payload (h h' : Kheap) (size ptr : ℕ) : Type 0 where
  pub addr : ℕ
  pub bytes : ℕ
  pub behind_header : ptr ≡ addr + header
  pub aligned : ptr % alignment ≡ 0
  pub room : size + header ≤ bytes
  pub above : h.base ≤ addr
  pub below : addr + bytes ≤ h'.max
  pub handed_out : Inserted (addr, bytes) (live h.blocks) (live h'.blocks)

-- A result of `kmalloc`: `NULL` with the same blocks, or a payload; the invariant holds after it.
abbrev pub Returns : Kheap → (size ptr : ℕ) → Kheap → Type 0
Returns h size ptr h' = IsWf h' × (((ptr ≡ 0) × (h'.blocks ≡ h.blocks)) ⊎ Payload h h' size ptr)

last_block-end :
    (f : Bool) (lo hi : ℕ) (b : Block) (bs : List Block)
    → Tiled f lo (b ∷ bs) hi
    → (last_block b bs).addr + (last_block b bs).size ≡ hi
last_block-end f lo hi b [] (at, magic, least, al, apart, t) = omega arith
last_block-end f lo hi b (c ∷ bs) (at, magic, least, al, apart, t) =
    last_block-end b.is_free (lo + b.size) hi c bs t

Tiled-add_last :
    (n id : ℕ) (f : Bool) (lo hi : ℕ) (bs : List Block)
    → header + alignment ≤ n
    → n % alignment ≡ 0
    → Tiled f lo bs hi
    → Tiled f lo (add_last bs (taken hi n id)) (hi + n)
Tiled-add_last n id f lo hi [] least al t =
    (omega arith, refl, least, al, ground arith, omega arith)
Tiled-add_last n id f lo hi (b ∷ bs) least al (at, magic, least', al', apart, t) =
    (at, magic, least', al', apart, Tiled-add_last n id b.is_free (lo + b.size) hi bs least al t)

live-add_last :
    (bs : List Block) (a n id : ℕ) → Inserted (a, n) (live bs) (live (add_last bs (taken a n id)))
live-add_last [] a n id = here
live-add_last (b ∷ bs) a n id = elim (Bool-cases b.is_free) [
  | inl free ↦ rw free (live-add_last bs a n id)
  | inr used ↦ rw used (there (live-add_last bs a n id))
]

add_last-ne : (bs : List Block) (v : Block) → add_last bs v ≢ []
add_last-ne [] v e = cc
add_last-ne (b ∷ bs) v e = cc

module _ (h h' : Kheap) (wf : IsWf h) where
  Grown-IsWf : Grown h h' → IsWf h'
  Grown-IsWf g = record {
    based = rw (g.base) wf.based;
    fits = rw (g.base) wf.fits;
    pages = g.pages wf.pages;
    below = omega (arith, g.below wf.below, g.base);
    last = wf.last;
    mapped = omega (arith, wf.mapped, g.more);
    tiled = rw (g.base, g.blocks) wf.tiled;
    some_block = rw (g.blocks) wf.some_block;
    head_used = rw (g.head) wf.head_used;
  }

  New-Returns :
      (size needed id : ℕ)
      → size + header ≤ needed
      → header + alignment ≤ needed
      → needed % alignment ≡ 0
      → Grown h h'
      → wf.last + needed ≤ h'.max
      → Returns h size
          (wf.last + header)
          (record h' { blocks = add_last h'.blocks (taken wf.last needed id) })
  unfolding Grown-IsWf
  New-Returns size needed id room least al g reach =
      let grown = Grown-IsWf g in
      (
        record {
          based = grown.based;
          fits = grown.fits;
          pages = grown.pages;
          below = grown.below;
          last = wf.last + needed;
          mapped = reach;
          tiled = Tiled-add_last needed id false h'.base wf.last h'.blocks least al grown.tiled;
          some_block = add_last-ne h'.blocks (taken wf.last needed id);
          head_used = grown.head_used;
        },
        inr (record {
          addr = wf.last;
          bytes = needed;
          behind_header = refl;
          aligned = omega (arith, Tiled-aligned false h.base h.blocks wf.last wf.tiled, wf.based);
          room = room;
          above = Tiled-le false h.base h.blocks wf.last wf.tiled;
          below = reach;
          handed_out = rw (g.blocks) (live-add_last h.blocks wf.last needed id);
        }),
      )

Carved-Returns :
    (h : Kheap) (wf : IsWf h) (size needed a : ℕ) (bs : List Block)
    → size + header ≤ needed
    → Carved false h.base wf.last needed a h.blocks bs
    → Returns h size (a + header) (record h { blocks = bs })
Carved-Returns h wf size needed a bs room c = (
  record {
    based = wf.based;
    fits = wf.fits;
    pages = wf.pages;
    below = wf.below;
    last = wf.last;
    mapped = wf.mapped;
    tiled = c.tiled;
    some_block = c.some_block;
    head_used = wf.head_used;
  },
  inr (record {
    addr = a;
    bytes = c.size;
    behind_header = refl;
    aligned = omega (arith, c.aligned, wf.based);
    room = omega (arith, c.enough);
    above = c.above;
    below = omega (arith, c.below, wf.mapped);
    handed_out = c.handed_out;
  }),
)

last-end :
    (h : Kheap) (wf : IsWf h)
    → (last_block h.head h.blocks).addr + (last_block h.head h.blocks).size ≡ wf.last
last-end h wf = go h.blocks wf.some_block wf.tiled
  where
    go :
        (bs : List Block)
        → bs ≢ []
        → Tiled false h.base bs wf.last
        → (last_block h.head bs).addr + (last_block h.head bs).size ≡ wf.last
    go [] ne t = absurd (ne refl)
    go (b ∷ bs) ne t = last_block-end false h.base wf.last b bs t

module _ {W : Type 0} (k : Backing W) (h h' : Kheap) (wf : IsWf h) (w w' : W) (ptr : ℕ) where
  Null-Returns : (size : ℕ) → (0 ≡ ptr) × (h ≡ h') → Returns h size ptr h'
  Null-Returns size e = subst₂ (λ x y. Returns h size y x) e.1 e.0 (wf, inl (refl, refl))

  kmalloc_new-Returns :
      (size needed id : ℕ)
      → size + header ≤ needed
      → header + alignment ≤ needed
      → needed % alignment ≡ 0
      → kmalloc_new k h w needed id ≡ ok (ptr, h', w')
      → Returns h size ptr h'
  unfolding kmalloc_new
  kmalloc_new-Returns size needed id room least al e =
      elim (Bool-cases (ltb (uintptr_max - heap_max_size) h.base)) [
        | inl no_limit ↦ Null-Returns size (ground arith)
        | inr limit ↦
            elim (Bool-cases (
              ltb last.addr h.base
              || ltb (h.base + heap_max_size) last.addr
              || ltb (h.base + heap_max_size - last.addr) last.size)) [
                | inl outside ↦ Null-Returns size (ground arith)
                | inr inside ↦
                    elim (Bool-cases (
                      ltb (uintptr_max - needed) addr
                      || ltb (h.base + heap_max_size) (addr + needed))) [
                        | inl full ↦ Null-Returns size (ground arith)
                        | inr space ↦
                            let (r, e₁, e₂) =
                              returned (kheap_expand_to_addr k h w (addr + needed))
                                (place_new k addr needed id) {r = (ptr, h', w')} (ground arith) in
                            grown_by r.0 r.1 r.2 e₁ e₂
                      ]
              ]
      ]
    where
      last : Block
      last = last_block h.head h.blocks

      addr : ℕ
      addr = last.addr + last.size

      grown_by :
          (grown : Bool) (h₁ : Kheap) (w₁ : W)
          → kheap_expand_to_addr k h w (addr + needed) ≡ ok (grown, h₁, w₁)
          → place_new k addr needed id (grown, h₁, w₁) ≡ ok (ptr, h', w')
          → Returns h size ptr h'
      grown_by true h₁ w₁ e₁ e₂ =
          let same : (addr + header ≡ ptr)
              × (record h₁ { blocks = add_last h₁.blocks (taken addr needed id) } ≡ h') =
            ground arith in
          let (g, reach) = expand_to_addr-Reaches k h h₁ w w₁ (addr + needed) true e₁ in
          subst₂ (λ x y. Returns h size y x) same.1 same.0
            (subst
              (λ x.
                Returns h size (x + header)
                  (record h₁ { blocks = add_last h₁.blocks (taken x needed id) }))
              (sym (last-end h wf))
              (New-Returns h h₁ wf size needed id room least al g
                (omega (arith, reach refl, last-end h wf))))
      grown_by false h₁ w₁ e₁ e₂ =
          let same : (0 ≡ ptr) × (h₁ ≡ h') = ground arith in
          let (g, _) = expand_to_addr-Reaches k h h₁ w w₁ (addr + needed) false e₁ in
          subst₂ (λ x y. Returns h size y x) same.1 same.0
            (Grown-IsWf h h₁ wf g, inl (refl, g.blocks))

  -- A call of `kmalloc` that returns keeps the invariant of the heap. It returns `NULL` and leaves
  -- the blocks as they were, or an aligned payload of at least the size asked for, whose block lies
  -- in the mapped part of the heap and is the only new one among those handed out.
  pub kmalloc-Returns :
      (size id : ℕ) → kmalloc k h w size id ≡ ok (ptr, h', w') → Returns h size ptr h'
  unfolding kmalloc
  kmalloc-Returns size id e = elim (Bool-cases (size == 0)) [
    | inl zero_size ↦ Null-Returns size (ground arith)
    | inr some_size ↦ elim (Bool-cases (ltb (uintptr_max - header - (alignment - 1)) size)) [
      | inl too_large ↦ Null-Returns size (ground arith)
      | inr small ↦ elim (Option-cases (first_fit (total_needed size) id h.blocks)) [
        | inl nothing ↦
            kmalloc_new-Returns size (total_needed size) id (omega arith) (ground arith)
              (omega arith) (ground arith)
        | inr (r, found) ↦
            let same : (r.0 + header ≡ ptr) × (record h { blocks = r.1 } ≡ h') = ground arith in
            subst₂ (λ x y. Returns h size y x) same.1 same.0
              (Carved-Returns h wf size (total_needed size) r.0 r.1 (omega arith) (
                first_fit-Carved (total_needed size) id (ground arith) (omega arith) false h.base
                  wf.last r.0 h.blocks r.1 wf.tiled found))
      ]
    ]
  ]
