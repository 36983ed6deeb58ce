-- ===== src/Mmap/Unmap.antt =====
-- `do_munmap` of kernel/arch/x86_64/syscall.c after a region has been mapped.
use la_os.Common.{
  Outcome, ok, ◌>>=◌, ℕ, ◌+◌, ◌-◌, ◌/◌, ◌%◌, ◌^◌, ◌<◌, ◌≡◌, ◌≢◌, ap, ◌∙◌, Bool, true, false, not,
  ◌==◌, ltb, some, List, arith, if◌then◌else◌, if-false, page_size, align_down, add64,
}
use la_os.Vma.{Vma, vma_find, vma_free}
use la_os.Mmap.{Process, release_loop, do_munmap, is_region}

-- `do_munmap` from the start of a page, with the length in whole pages.
abbrev munmap_at : Process → (start bytes : ℕ) → Outcome (Bool × Process)
munmap_at s start bytes =
    let unmapped = release_loop (bytes / page_size) start s >>= λ s'.
    ok ((vma_free s'.vmas start bytes).0, record s' { vmas = (vma_free s'.vmas start bytes).1 }) in
    if bytes == 0
    then ok (false, s)
    else if ltb (2 ^ 64 - 1 - start) bytes
    then ok (false, s)
    else if not (is_region (vma_find s.vmas start) start (start + bytes))
    then ok (false, s)
    else unmapped

region-test :
    (v : Vma) (start end : ℕ)
    → v.start ≡ start
    → v.end ≡ end
    → not (is_region (some v) start end) ≡ false
region-test v start end e f = ground (arith, e, f)

-- A call for just one region releases its pages and the region.
pub do_munmap-region :
    (s s' : Process) (addr length bytes : ℕ) (v : Vma) (us : List Vma)
    → align_down (add64 length (page_size - 1)) page_size ≡ bytes
    → bytes ≢ 0
    → addr % page_size ≡ 0
    → addr + bytes < 2 ^ 64
    → vma_find s.vmas addr ≡ some v
    → v.start ≡ addr
    → v.end ≡ addr + bytes
    → release_loop (bytes / page_size) addr s ≡ ok s'
    → vma_free s'.vmas addr bytes ≡ (true, us)
    → do_munmap s addr length ≡ ok (true, record s' { vmas = us })
unfolding do_munmap
do_munmap-region s s' addr length bytes v us rounds_up some_bytes at_page fits found start end
      released freed =
    let here : align_down addr page_size ≡ addr = omega (arith, at_page) in
    ap (λ a. munmap_at s a (align_down (add64 length (page_size - 1)) page_size)) here
    ∙ ap (munmap_at s addr) rounds_up
    ∙ if-false (bytes == 0) (ok (false, s)) _ (ground (arith, some_bytes))
    ∙ if-false (ltb (2 ^ 64 - 1 - addr) bytes) (ok (false, s)) _ (ground (arith, fits))
    ∙ if-false (not (is_region (vma_find s.vmas addr) addr (addr + bytes))) (ok (false, s)) _ (
        ap (λ r. not (is_region r addr (addr + bytes))) found
        ∙ region-test v addr (addr + bytes) start end)
    ∙ ap
        (λ (o : Outcome Process). o >>= λ x.
          ok ((vma_free x.vmas addr bytes).0, record x { vmas = (vma_free x.vmas addr bytes).1 }))
        released
    ∙ ap (λ (r : Bool × List Vma). ok (r.0, record s' { vmas = r.1 })) freed
