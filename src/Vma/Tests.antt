-- ===== src/Vma/Tests.antt =====
-- kernel/vma.c at concrete inputs.
use la_os.Common.{ℕ, ◌≡◌, ◌≢◌, refl, arith, inl, inr, List, [], ◌∷◌, true, some}
use la_os.Vma.{
  Vma, vma_alloc, vma_find, vma_destroy_all, find_free_loop, vma_find_free, user_mmap_base,
}
use la_os.Vma.Order.{Apart, Clear}
use la_os.Vma.Lookup.{new_or, vma_alloc-vma_find}
use la_os.Vma.FindFree.{IsFound, vma_find_free-IsFound}

-- A region at the base, and one after a gap of a page.
abbrev first : Vma
first = record { start = 0x400_0000; end = 0x400_2000; prot = 5; flags = 2 }

abbrev second : Vma
second = record { start = 0x400_3000; end = 0x400_4000; prot = 3; flags = 0x22 }

abbrev two : List Vma
two = first ∷ second ∷ []

abbrev mapped_again : ℕ
mapped_again = 0x400_4000

two-Clear : Clear 0x400_2000 0x400_3000 two
two-Clear = (inr (omega arith), (inl (omega arith), tt))

two-Apart : Apart 0 two
two-Apart = (omega arith, omega arith, (omega arith, omega arith, tt))

-- After a region that ends below the base, the search goes on at that end.
abbrev below_base : ℕ
below_base = 0x40_2000

abbrev early : Vma
early = record { start = 0x40_0000; end = 0x40_2000; prot = 5; flags = 2 }

find_free_below : vma_find_free (some (early ∷ [])) 0x1000 ≡ below_base
unfolding vma_find_free find_free_loop
find_free_below = refl

-- In front of a region behind the mapping area, the result may reach over the end of the area.
abbrev stack : Vma
stack = record { start = 0x7f00_0000_0000; end = 0x7f00_0001_0000; prot = 3; flags = 0x22 }

find_free_over_end : vma_find_free (some (stack ∷ [])) 0x4000_0000 ≡ user_mmap_base
unfolding vma_find_free find_free_loop
find_free_over_end = refl

destroyed : vma_destroy_all two ≡ (two, [])
unfolding vma_destroy_all
destroyed = refl

vma_alloc-vma_find_example :
    vma_find (vma_alloc true two 0x400_2000 0x400_3000 3 0x22).1 0x400_2fff
    ≡ new_or
        (record { start = 0x400_2000; end = 0x400_3000; prot = 3; flags = 0x22 })
        two
        0x400_2fff
vma_alloc-vma_find_example =
    vma_alloc-vma_find two 0x400_2000 0x400_3000 3 0x22 0x400_2fff two-Clear

found_two : vma_find_free (some two) 0x1800 ≡ mapped_again
unfolding vma_find_free find_free_loop
found_two = refl

found_two-nonzero : vma_find_free (some two) 0x1800 ≢ 0
found_two-nonzero z = omega (arith, found_two)

vma_find_free-IsFound_example : IsFound 0 0x1800 two (vma_find_free (some two) 0x1800)
vma_find_free-IsFound_example =
    vma_find_free-IsFound 0 0x1800 two (omega arith) (omega arith) (omega arith) two-Apart
      (omega arith, (omega arith, tt)) found_two-nonzero
