-- ===== src/Heap.antt =====
-- kernel/heap.c: the kernel heap, with HEAP_MALLOC_FROM_TAIL as kernel/heap.h defines it. Each call
-- runs under `kheap_g.lock`, so it is one step. The circular list of `struct kheap_node` is the list
-- of its blocks, in its order, behind the head that `kheap_g` holds.
pub mod Tiled
pub mod Expand
pub mod Backed
pub mod Fit
pub mod Alloc
pub mod Release
pub mod Boot
pub mod Cycle
mod Tests
use la_os.Common.{
  ℕ, zero, suc, ◌+◌, ◌-◌, ◌/◌, ◌*◌, ◌%◌, ◌^◌, Bool, true, false, not, ◌&&◌, ◌||◌, ◌==◌, ltb, leb,
  if◌then◌else◌, Option, none, some, List, [], ◌∷◌, Outcome, ok, panic, ◌>>=◌, add64, sub64,
  u64_mod, page_size, align_down, ◌⊎◌, inl, inr,
}

-- `struct kheap_node` at its address; `size` counts the header.
pub record Block : Type 0 where
  pub addr : ℕ
  pub magic : ℕ
  pub is_free : Bool
  pub size : ℕ
  pub id : ℕ

-- `sizeof(struct kheap_node)`, `KHEAP_ALIGNMENT`, `KHEAP_MAGIC` and `HEAP_MAX_SIZE`.
abbrev pub header : ℕ
header = 48

abbrev pub alignment : ℕ
alignment = 16

abbrev pub kheap_magic : ℕ
kheap_magic = 0x48454150

abbrev pub heap_max_size : ℕ
heap_max_size = 2 ^ 30

-- `UINTPTR_MAX` and `SIZE_MAX`.
abbrev pub uintptr_max : ℕ
uintptr_max = u64_mod - 1

-- `struct kheap`; the head is the block `head`, and stands in no list.
pub record Kheap : Type 0 where
  pub base : ℕ
  pub max : ℕ
  pub count : ℕ
  pub head : Block
  pub blocks : List Block

-- What the heap asks of the page allocator and of the page tables, over their state `W`.
pub record Backing (W : Type 0) : Type 0 where
  pub is_mapped : W → ℕ → Bool  -- `vmm_is_mapped(virt_to_phys(kernel_pml4), va)`
  pub pmm_alloc : W → ℕ × W
  pub pmm_free : W → ℕ → Outcome W
  pub vmm_map : W → (va phys : ℕ) → Bool × W  -- of `kernel_pml4`; `true` for the result 0

-- `kheap_get_limit`; `none` for `false`.
abbrev pub kheap_get_limit : Kheap → Option ℕ
kheap_get_limit h =
    if ltb (uintptr_max - heap_max_size) h.base then none else some (h.base + heap_max_size)

-- A call's result with the heap and the pages after it.
abbrev pub Run : Type 0 → Type 0 → Type 0
Run W A = Outcome (A × Kheap × W)

module _ {W : Type 0} (k : Backing W) where
  -- The loop of `kheap_expand_to_addr`. A round adds a page to `max`, so `rounds` is the number of
  -- pages from `max` to `target`, and no round is left over or missing.
  unfoldable pub expand_loop : (target limit rounds : ℕ) → Kheap → W → Run W Bool
  expand_loop target limit zero h w = ok (true, h, w)
  expand_loop target limit (suc rounds) h w =
      let next = record h { max = h.max + page_size } in
      let (phys, w₁) = k.pmm_alloc w in
      let (mapped, w₂) = k.vmm_map w₁ h.max phys in
      let kept = expand_loop target limit rounds next w in
      let grown = expand_loop target limit rounds next w₂ in
      if not (ltb h.max target)
      then ok (true, h, w)
      else if ltb limit h.max || ltb (limit - h.max) page_size
      then ok (false, h, w)
      else if k.is_mapped w h.max
      then kept
      else if phys == 0
      then ok (false, h, w₁)
      else if mapped
      then grown
      else k.pmm_free w₂ phys >>= λ w₃. ok (false, h, w₃)

  unfoldable pub kheap_expand_to_addr : Kheap → W → ℕ → Run W Bool
  kheap_expand_to_addr h w target_addr = elim (kheap_get_limit h) [
    | none ↦ ok (false, h, w)
    | some limit ↦
        if ltb target_addr h.base || ltb (uintptr_max - (page_size - 1)) target_addr
        then ok (false, h, w)
        else let target = align_down (target_addr + page_size - 1) page_size in
          if ltb limit target
          then ok (false, h, w)
          else expand_loop target limit ((target - h.max + (page_size - 1)) / page_size) h w
  ]

-- `total_needed` of `kmalloc`.
abbrev pub total_needed : ℕ → ℕ
total_needed size = align_down (size + header + (alignment - 1)) alignment

-- A block that has been handed out; `id` is that of the thread that runs, or 0.
abbrev pub taken : (addr size id : ℕ) → Block
taken addr size id = record {
  addr = addr;
  magic = kheap_magic;
  is_free = false;
  size = size;
  id = id;
}

-- The first-fit loop of `kmalloc`: the block that it hands out, and the list after it. A block with
-- enough room is split, and its tail handed out.
unfoldable pub first_fit : (needed id : ℕ) → List Block → Option (ℕ × List Block)
first_fit needed id [] = none
first_fit needed id (b ∷ bs) =
    let free_size = b.size - needed in
    let rest = first_fit needed id bs in
    if b.is_free && leb needed b.size
    then (if leb (header + alignment) free_size
        then some (
          b.addr + free_size,
          record b { size = free_size } ∷ taken (b.addr + free_size) needed id ∷ bs,
        )
        else some (b.addr, taken b.addr b.size id ∷ bs))
    else elim rest [ none ↦ none | some (addr, bs') ↦ some (addr, b ∷ bs') ]

-- `list_last_entry(&kheap_g.head.node, …)`: the head itself where the list is empty.
abbrev pub last_block : Block → List Block → Block
last_block head [] = head
last_block head (b ∷ bs) = last_block b bs

-- `list_add(&vmn->node, &last->node)`.
abbrev pub add_last : List Block → Block → List Block
add_last [] v = v ∷ []
add_last (b ∷ bs) v = b ∷ add_last bs v

module _ {W : Type 0} (k : Backing W) where
  -- The new block, once the pages are there.
  abbrev pub place_new : (addr needed id : ℕ) → Bool × Kheap × W → Run W ℕ
  place_new addr needed id (grown, h, w) =
      if grown
      then ok (addr + header, record h { blocks = add_last h.blocks (taken addr needed id) }, w)
      else ok (0, h, w)

  -- The last part of `kmalloc`: a new block behind the last one. The result is the payload's
  -- address, 0 for `NULL`.
  unfoldable pub kmalloc_new : Kheap → W → (needed id : ℕ) → Run W ℕ
  kmalloc_new h w needed id = elim (kheap_get_limit h) [
    | none ↦ ok (0, h, w)
    | some limit ↦
        let last = last_block h.head h.blocks in
        let addr = last.addr + last.size in
        if ltb last.addr h.base || ltb limit last.addr || ltb (limit - last.addr) last.size
        then ok (0, h, w)
        else if ltb (uintptr_max - needed) addr || ltb limit (addr + needed)
        then ok (0, h, w)
        else kheap_expand_to_addr k h w (addr + needed) >>= place_new addr needed id
  ]

  -- `id` is `cpu_get_ctx()->current->id`, or 0 where there is no current thread.
  unfoldable pub kmalloc : Kheap → W → (size id : ℕ) → Run W ℕ
  kmalloc h w size id =
      if size == 0
      then ok (0, h, w)
      else if ltb (uintptr_max - header - (alignment - 1)) size
      then ok (0, h, w)
      else elim (first_fit (total_needed size) id h.blocks) [
        | some (addr, blocks) ↦ ok (addr + header, record h { blocks = blocks }, w)
        | none ↦ kmalloc_new h w (total_needed size) id
      ]

-- The result of a free. `stray` stands for a pointer that is not the payload of a listed block:
-- what the code does then depends on the bytes that it takes for a header.
pub data Freed : Type 0 where
  freed : List Block → Freed
  double_free : Freed  -- panics
  bad_magic : Freed  -- panics
  stray : Freed

abbrev pub cons_freed : Block → Freed → Freed
cons_freed b (freed bs) = freed (b ∷ bs)
cons_freed b double_free = double_free
cons_freed b bad_magic = bad_magic
cons_freed b stray = stray

-- `prev->is_free && prev_adj`, and likewise with `next`.
abbrev pub joins : Block → Block → Bool
joins a b = (add64 a.addr a.size == b.addr)

-- The second merge and the mark, for `curr` after the first one; `next_adj` was read before that.
unfoldable pub merge_next : (curr : Block) (next_adj : Bool) → List Block → List Block
merge_next curr next_adj [] = record curr { is_free = true; id = 0 } ∷ []
merge_next curr next_adj (next ∷ rest) =
    if next.is_free && next_adj
    then record curr { size = add64 curr.size next.size; is_free = true; id = 0 } ∷ rest
    else record curr { is_free = true; id = 0 } ∷ next ∷ rest

abbrev next_joins : Block → List Block → Bool
next_joins curr [] = false
next_joins curr (next ∷ rest) = joins curr next

-- `kfree` from its checks on, with the block before `curr` and the blocks behind it. The block
-- before the first and behind the last is the head, which is never free.
unfoldable pub release : (prev curr : Block) → List Block → Freed
release prev curr rest =
    let next_adj = next_joins curr rest in
    if curr.is_free
    then double_free
    else if not (curr.magic == kheap_magic)
    then bad_magic
    else if prev.is_free && joins prev curr
    then freed (merge_next (record prev { size = add64 prev.size curr.size }) next_adj rest)
    else freed (prev ∷ merge_next curr next_adj rest)

-- The list from `prev` on, after the block at `addr` has been freed.
unfoldable pub free_from : (addr : ℕ) (prev : Block) → List Block → Freed
free_from addr prev [] = stray
free_from addr prev (b ∷ bs) =
    if b.addr == addr then release prev b bs else cons_freed prev (free_from addr b bs)

abbrev pub drop_head : Kheap → Freed → Freed ⊎ Kheap
drop_head h (freed []) = inl stray
drop_head h (freed (head ∷ bs)) = inr (record h { head = head; blocks = bs })
drop_head h r = inl r

-- `inr` where `kfree` returns.
unfoldable pub kfree : Kheap → ℕ → Freed ⊎ Kheap
kfree h ptr = if ptr == 0 then inr h else drop_head h (free_from (sub64 ptr header) h.head h.blocks)
