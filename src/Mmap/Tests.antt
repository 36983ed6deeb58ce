-- ===== src/Mmap/Tests.antt =====
-- kernel/arch/x86_64/syscall.c maps and unmaps memory at concrete inputs.
use la_os.Common.{
  ℕ, ◌≡◌, refl, if◌then◌else◌, ◌==◌, ◌||◌, true, false, List, [], ◌∷◌, Option, none, some, Outcome,
  ok, panic,
}
use la_os.Vma.{
  Vma, vma_insert, vma_alloc, vma_free, free_loop, vma_find_free, find_free_loop, user_mmap_base,
}
use la_os.Mmap.{Process, Page, map_loop, map_round, take_tables, rollback, release_loop, do_mmap}

-- A process whose program is mapped at 0x40_0000, outside the mapping area, with one region of one
-- page; `missing` is how many tables the next pages lack.
abbrev region : Vma
region = record { start = user_mmap_base; end = 0x400_1000; prot = 3; flags = 0x22 }

abbrev process : (missing : List ℕ) → Process
process missing = record {
  vmas = region ∷ [];
  pages = λ b.
      if b == 0x40_0000
      then some (record { phys = 0x8_0000; writable = false; no_exec = false })
      else if b == user_mmap_base
      then some (record { phys = 0x9_0000; writable = true; no_exec = true })
      else none;
  memory = true;
  supply = 0x10_0000 ∷ 0x10_1000 ∷ 0x10_2000 ∷ [];
  tables = missing;
  taken = λ x. if x == 0x8_0000 || x == 0x9_0000 then 1 else 0;
  in_tables = λ x. 0;
  freed = λ x. 0;
}

abbrev second_page : Outcome (ℕ × Process) → Option Page
second_page (ok r) = r.1.pages 0x400_2000
second_page panic = none

abbrev freed_pages : Outcome (ℕ × Process) → ℕ × ℕ × ℕ
freed_pages (ok r) = (r.1.freed 0x10_0000, r.1.freed 0x10_1000, r.1.in_tables 0x10_2000)
freed_pages panic = (0, 0, 0)

-- A page and a byte are two pages; the first takes a page for a table too.
two_pages :
    second_page (do_mmap (process (1 ∷ 0 ∷ [])) 0x1001 3 0)
    ≡ some (record { phys = 0x10_2000; writable = true; no_exec = true })
unfolding do_mmap map_loop map_round take_tables vma_alloc vma_insert vma_find_free find_free_loop
    rollback release_loop vma_free free_loop
two_pages = refl

-- With no page for the second of two tables both pages are given back, and one stays a table.
no_table : freed_pages (do_mmap (process (0 ∷ 2 ∷ [])) 0x1001 3 0) ≡ (1, 1, 1)
unfolding do_mmap map_loop map_round take_tables vma_alloc vma_insert vma_find_free find_free_loop
    rollback release_loop vma_free free_loop
no_table = refl
