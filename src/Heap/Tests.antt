-- ===== src/Heap/Tests.antt =====
-- kernel/heap.c at concrete inputs: a heap at the base address of x86-64, over pages that are
-- numbered as they are asked for.
use la_os.Common.{
  ℕ, ◌+◌, ◌*◌, ◌≡◌, ◌∙◌, ◌==◌, ◌||◌, Bool, true, false, sym, ap, List, [], ◌∷◌, arith, refl, inl,
  inr, Outcome, ok, panic, page_size,
}
use la_os.Heap.{
  Block, Kheap, Backing, double_free, header, taken, expand_loop, kheap_expand_to_addr, first_fit,
  kmalloc, kfree, free_from, release, merge_next,
}
use la_os.Heap.Tiled.{IsWf, live, Inserted}
use la_os.Heap.Expand.{Reaches}
use la_os.Heap.Backed.{PagingLaws, IsBacked, expand_to_addr-IsBacked}
use la_os.Heap.Alloc.{Returns, kmalloc-Returns}
use la_os.Heap.Release.{kfree-Returns}
use la_os.Heap.Boot.{kheap_init, kheap_init-IsWf}
use la_os.Heap.Cycle.{kmalloc-kfree}

-- Each page is new, and every mapping succeeds.
abbrev paging : Backing ℕ
paging = record {
  is_mapped = λ w va. false;
  pmm_alloc = λ w. (w, w + page_size);
  pmm_free = λ w phys. ok w;
  vmm_map = λ w va phys. (true, w);
}

abbrev vbase : ℕ
vbase = 0xffff_a000_0000_0000

abbrev first_frame : ℕ
first_frame = 0x100000

heap_of {ℓ} : {A : Type ℓ} → A → Outcome A → A
heap_of d (ok a) = a
heap_of d panic = d

abbrev start : Kheap
start = record {
  base = vbase;
  max = vbase + page_size;
  count = 1;
  head = record {
    addr = 0xffff_ffff_8000_0000;
    magic = 0x48454150;
    is_free = false;
    size = 0;
    id = 0;
  };
  blocks =
      record { addr = vbase; magic = 0x48454150; is_free = true; size = page_size; id = 0 } ∷ [];
}

boots :
    kheap_init paging vbase 0xffff_ffff_8000_0000 first_frame ≡ ok (start, first_frame + page_size)
unfolding kheap_init kheap_expand_to_addr expand_loop
boots = refl

kheap_init-IsWf_example : IsWf start × (live start.blocks ≡ []) × (start.base ≡ vbase)
kheap_init-IsWf_example =
    kheap_init-IsWf paging vbase 0xffff_ffff_8000_0000 first_frame (first_frame + page_size) start
      (omega arith) (omega arith) boots

start-IsWf : IsWf start
start-IsWf = kheap_init-IsWf_example.0

-- 100 bytes and a header are 160 bytes, from the tail of the page.
abbrev split_blocks : List Block
split_blocks =
    record { addr = vbase; magic = 0x48454150; is_free = true; size = 3936; id = 0 }
    ∷ taken (vbase + 3936) 160 7
    ∷ []

abbrev after_split : Kheap
after_split = record start { blocks = split_blocks }

split : kmalloc paging start 0 100 7 ≡ ok (vbase + 3984, after_split, 0)
unfolding kmalloc first_fit
split = refl

kmalloc-Returns_example : Returns start 100 (vbase + 3984) after_split
kmalloc-Returns_example =
    kmalloc-Returns paging start after_split start-IsWf 0 0 (vbase + 3984) 100 7 split

kmalloc-kfree_example :
    (h'' : Kheap) × (kfree after_split (vbase + 3984) ≡ inr h'')
    × IsWf h''
    × (live h''.blocks ≡ live start.blocks)
kmalloc-kfree_example =
    kmalloc-kfree paging start after_split 0 0 100 7 (vbase + 3984) start-IsWf split (omega arith)

-- The block joins its free neighbour again.
joined : kfree after_split (vbase + 3984) ≡ inr start
unfolding kfree free_from release merge_next
joined = refl

after_split-IsWf : IsWf after_split
after_split-IsWf = kmalloc-Returns_example.0

kfree-Returns_example :
    (false ≡ false
      → (h' : Kheap) × (kfree after_split (vbase + 3936 + header) ≡ inr h')
        × IsWf h'
        × Inserted (vbase + 3936, 160) (live h'.blocks) (live after_split.blocks))
    × (false ≡ true → kfree after_split (vbase + 3936 + header) ≡ inl double_free)
kfree-Returns_example =
    kfree-Returns after_split
      (record { addr = vbase; magic = 0x48454150; is_free = true; size = 3936; id = 0 } ∷ [])
      (taken (vbase + 3936) 160 7) [] after_split-IsWf refl

-- The next page, and which addresses are mapped.
abbrev World : Type 0
World = ℕ × (ℕ → Bool)

abbrev tables : Backing World
tables = record {
  is_mapped = λ w va. w.1 va;
  pmm_alloc = λ w. (w.0, (w.0 + page_size, w.1));
  pmm_free = λ w phys. ok w;
  vmm_map = λ w va phys. (true, (w.0, λ u. u == va || w.1 u));
}

tables-PagingLaws : PagingLaws tables
unfolding heap_of
tables-PagingLaws = record {
  alloc = λ w u on. on;
  free = λ w w' phys u e on. ap (λ (x : Outcome World). (heap_of w x).1 u) (sym e) ∙ on;
  here = λ w va phys done. ground arith;
  there = λ w va phys u on. ground arith;
}

-- A request that the page cannot hold: 9000 bytes, over two more pages. The first is mapped.
abbrev one_page : World
one_page = (first_frame, λ u. u == vbase)

abbrev three_pages : World
three_pages = (
  first_frame + 2 * page_size,
  λ u. u == vbase + 2 * page_size || (u == vbase + page_size || u == vbase),
)

grows :
    kheap_expand_to_addr tables start one_page (vbase + 9000)
    ≡ ok (true, record start { max = vbase + 3 * page_size }, three_pages)
unfolding kheap_expand_to_addr expand_loop
grows = refl

expand_to_addr-IsBacked_example :
    Reaches tables start (vbase + 9000) true (record start { max = vbase + 3 * page_size })
    × IsBacked tables tables-PagingLaws start one_page
        (record start { max = vbase + 3 * page_size })
        three_pages
expand_to_addr-IsBacked_example =
    expand_to_addr-IsBacked tables tables-PagingLaws start
      (record start { max = vbase + 3 * page_size }) one_page three_pages (vbase + 9000) true grows
