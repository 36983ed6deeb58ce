-- ===== src/Heap/Tiled.antt =====
-- The invariant of kernel/heap.c: the blocks tile the heap in address order.
use la_os.Common.{
  ℕ, ◌+◌, ◌%◌, ◌^◌, ◌≤◌, ◌<◌, ◌≡◌, ◌≢◌, Bool, false, ◌&&◌, List, [], ◌∷◌, arith, refl,
  if◌then◌else◌, page_size,
}
use la_os.Heap.{Block, header, alignment, kheap_magic, heap_max_size, Kheap}

-- The blocks lie one behind the other from `lo` to `hi`, each with its header and of a size that
-- keeps the alignment, and no two free ones are neighbours; `after_free` is whether the block
-- before the first is free.
abbrev pub Tiled : (after_free : Bool) → (lo : ℕ) → List Block → (hi : ℕ) → Type 0
Tiled after_free lo [] hi = lo ≡ hi
Tiled after_free lo (b ∷ bs) hi =
    (b.addr ≡ lo)
    × (b.magic ≡ kheap_magic)
    × (header + alignment ≤ b.size)
    × (b.size % alignment ≡ 0)
    × ((after_free && b.is_free) ≡ false)
    × Tiled b.is_free (lo + b.size) bs hi

pub Tiled-le : (f : Bool) (lo : ℕ) (bs : List Block) (hi : ℕ) → Tiled f lo bs hi → lo ≤ hi
Tiled-le f lo [] hi t = omega arith
Tiled-le f lo (b ∷ bs) hi (a, m, s, al, c, t) =
    omega (arith, Tiled-le b.is_free (lo + b.size) bs hi t)

pub Tiled-aligned :
    (f : Bool) (lo : ℕ) (bs : List Block) (hi : ℕ)
    → Tiled f lo bs hi
    → hi % alignment ≡ lo % alignment
Tiled-aligned f lo [] hi t = omega arith
Tiled-aligned f lo (b ∷ bs) hi (a, m, s, al, c, t) =
    omega (arith, Tiled-aligned b.is_free (lo + b.size) bs hi t)

-- Behind a block in use any block may be free.
pub Tiled-used :
    (f : Bool) (lo : ℕ) (bs : List Block) (hi : ℕ) → Tiled f lo bs hi → Tiled false lo bs hi
Tiled-used f lo [] hi t = t
Tiled-used f lo (b ∷ bs) hi (a, m, s, al, c, t) = (a, m, s, al, refl, t)

-- What is handed out: address and size of each block that is not free, headers included.
abbrev pub live : List Block → List (ℕ × ℕ)
live [] = []
live (b ∷ bs) = if b.is_free then live bs else (b.addr, b.size) ∷ live bs

-- `ys` is `xs` with `x` put in somewhere.
pub data Inserted {A : Type 0} (x : A) : List A → List A → Type 0 where
  here : {xs : List A} → Inserted x xs (x ∷ xs)
  there : {y : A} {xs ys : List A} → Inserted x xs ys → Inserted x (y ∷ xs) (y ∷ ys)

-- A heap between calls.
pub record IsWf (h : Kheap) : Type 0 where
  pub based : h.base % page_size ≡ 0
  pub fits : h.base + heap_max_size < 2 ^ 64
  pub pages : h.max % page_size ≡ 0
  pub below : h.max ≤ h.base + heap_max_size
  pub last : ℕ
  pub mapped : last ≤ h.max
  pub tiled : Tiled false h.base h.blocks last
  pub some_block : h.blocks ≢ []
  pub head_used : h.head.is_free ≡ false
