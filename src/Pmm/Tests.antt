-- ===== src/Pmm/Tests.antt =====
-- kernel/pmm.c at concrete inputs: 260 pages, of which the last four are free.
use la_os.Common.{
  ℕ, ◌/◌, ◌%◌, ◌≡◌, ◌≢◌, refl, arith, ltb, if◌then◌else◌, ◌⊎◌, List, [], ◌∷◌, Outcome, ok, panic,
  page_size,
}
use la_os.Pmm.{
  pmm_mark_used, pmm_mark_free, Pmm, page_free, find_run_loop, pmm_find_run, pmm_alloc_run,
  pmm_alloc, pmm_alloc_pages, pmm_free, pmm_free_pages,
}
use la_os.Pmm.Bitmap.{Bytes, bitmap_set, bitmap_clear, bitmap_test}
use la_os.Pmm.Find.{IsFirst, find_run-IsFirst}
use la_os.Pmm.Count.{clear_count}
use la_os.Pmm.Valid.{IsWf}
use la_os.Pmm.Alloc.{AllocResult, alloc_pages-Result}
use la_os.Pmm.Free.{FreeResult, pmm_free-Result, pmm_free_pages-Result, alloc_pages-free_pages}
use la_os.Pmm.Init.{
  MemmapEntry, pmm_scan, pmm_pick_max_entry, pmm_install_bitmap, release_page, release_pages,
  release_entries, pmm_release_usable, protected_pages, pmm_mark_protected, mark_self,
  init_installed, pmm_init_from_memmap,
}
use la_os.Pmm.Init.Exact.{Booted, init-Booted}

abbrev small_bitmap : Bytes
small_bitmap i = if ltb i 32 then 0xff else 0

abbrev small : Pmm
small = record {
  bitmap = small_bitmap;
  total_pages = 260;
  page_total = 260;
  page_none = 0;
  page_self = 1;
  usable = 4;
  freed = 4;
}

small_counted : small.freed ≡ clear_count small.bitmap small.total_pages
unfolding clear_count bitmap_test
small_counted = refl

small-IsWf : IsWf small
small-IsWf = record { bytes = λ i. ground arith; small = omega arith; counted = small_counted }

-- The first run of two pages, and a request for too many.
first_pages : ((pmm_alloc_pages small 2).0 ≡ 0x100000) × ((pmm_alloc_pages small 5).0 ≡ 0)
unfolding pmm_alloc_pages pmm_alloc_run pmm_find_run find_run_loop page_free bitmap_test
first_pages = (refl, refl)

freed_twice : pmm_free small 0x100000 ≡ panic
unfolding pmm_free bitmap_test
freed_twice = refl

abbrev taken : Pmm
taken = (pmm_alloc_pages small 2).1

find_run-IsFirst_example : IsFirst small 0 260 3 (pmm_find_run small 0 260 3)
find_run-IsFirst_example = find_run-IsFirst small 0 260 3 (omega arith) (omega arith) (omega arith)

alloc_pages-Result_example :
    AllocResult small 2 (pmm_alloc_pages small 2) × AllocResult small 1 (pmm_alloc small)
alloc_pages-Result_example = alloc_pages-Result small 2 small-IsWf (omega arith)

two_taken : (pmm_alloc_pages small 2).0 ≢ 0
two_taken = omega (arith, first_pages.0)

alloc_pages-free_pages_example :
    (p' : Pmm) × (pmm_free_pages taken (pmm_alloc_pages small 2).0 2 ≡ ok p')
    × ((j : ℕ) → bitmap_test p'.bitmap j ≡ bitmap_test small.bitmap j)
    × (p'.freed ≡ small.freed)
    × IsWf p'
alloc_pages-free_pages_example = alloc_pages-free_pages small 2 small-IsWf (omega arith) two_taken

-- The second page, and a run of three pages from it, are in use.
abbrev page_one : ℕ
page_one = 0x1000

abbrev three : ℕ
three = 3

pmm_free-Result_example :
    (page_one ≡ 0 → pmm_free small page_one ≡ ok small)
    × (page_one % page_size ≢ 0 → pmm_free small page_one ≡ panic)
    × (page_one ≢ 0
        → page_one % page_size ≡ 0
        → FreeResult small 1 (page_one / page_size) (pmm_free small page_one))
pmm_free-Result_example = pmm_free-Result small small-IsWf page_one

pmm_free_pages-Result_example :
    (page_one ≡ 0 ⊎ three ≡ 0 → pmm_free_pages small page_one three ≡ ok small)
    × (page_one ≢ 0
        → three ≢ 0
        → FreeResult small three (page_one / page_size) (pmm_free_pages small page_one three))
pmm_free_pages-Result_example = pmm_free_pages-Result small small-IsWf page_one three (omega arith)

-- A machine with a reserved region at 0 and 16 usable pages at 1 MiB.
abbrev regions : List MemmapEntry
regions =
    record { base = 0; length = 0x1000; kind = 1 }
    ∷ record { base = 0x100000; length = 0x10000; kind = 0 }
    ∷ []

abbrev booted : Outcome Pmm
booted = pmm_init_from_memmap (λ i. 0) small regions

state : Outcome Pmm → Pmm
state (ok s) = s
state panic = small

booted-ok : booted ≡ ok (state booted)
unfolding pmm_init_from_memmap pmm_pick_max_entry pmm_scan pmm_install_bitmap init_installed
    pmm_release_usable release_entries release_page mark_self pmm_mark_protected protected_pages
    bitmap_set bitmap_clear bitmap_test state release_pages pmm_mark_free pmm_mark_used
booted-ok = refl

init-Booted_example :
    (max_entry : MemmapEntry) × (max_end : ℕ) × (pmm_pick_max_entry regions
      ≡ ok (max_entry, max_end))
    × Booted regions max_entry max_end (state booted)
init-Booted_example = init-Booted (λ i. 0) small (state booted) regions (λ i. omega arith) booted-ok
