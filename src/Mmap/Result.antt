-- ===== src/Mmap/Result.antt =====
-- What `do_mmap` of kernel/arch/x86_64/syscall.c promises.
use la_os.Common.{
  ℕ, ◌+◌, ◌-◌, ◌/◌, ◌%◌, ◌^◌, bit_or, ◌<◌, ◌≡◌, ◌≢◌, Bool, true, false, Option, some, List,
  page_size, align_down, add64, Outcome, ok,
}
use la_os.Vma.{Vma, vma_alloc, vma_find_free}
use la_os.Mmap.{Process, is_lazy, do_munmap}
use la_os.Mmap.Round.{IsRestored}
use la_os.Mmap.Loop.{Holds}
use la_os.Mmap.Orderly.{IsOrderly}

abbrev pub rounded : ℕ → ℕ
rounded length = align_down (add64 length (page_size - 1)) page_size

-- A call either fails and leaves the process as it was, or returns a new region, whose pages are
-- all mapped unless it is lazy; `do_munmap` of the region then leaves the process as it was.
pub data IsMmap (s : Process) (length prot flags : ℕ) : Outcome (ℕ × Process) → Type 0 where
  refused :
      {s' : Process} → IsRestored s s' → IsOrderly s' → IsMmap s length prot flags (ok (0, s'))
  mapped :
      {addr : ℕ} {s' s'' : Process}
      → addr ≢ 0
      → s'.vmas
        ≡ (vma_alloc true s.vmas addr
            (addr + rounded length)
            (prot % 2 ^ 32)
            (bit_or 0x22 (flags % 2 ^ 32))).1
      → (is_lazy flags ≡ false → Holds (rounded length / page_size) addr prot s')
      → IsOrderly s'
      → do_munmap s' addr length ≡ ok (true, s'')
      → IsRestored s s''
      → IsMmap s length prot flags (ok (addr, s'))

module _ (s : Process) (length prot flags : ℕ) (orderly : IsOrderly s)
    (small : length < 2 ^ 61) where
  abbrev bytes : ℕ
  bytes = rounded length

  abbrev vaddr : ℕ
  vaddr = vma_find_free (some s.vmas) bytes

  abbrev added : (memory : Bool) → Option Vma × List Vma
  added memory =
      vma_alloc memory s.vmas vaddr (add64 vaddr bytes) (prot % 2 ^ 32)
        (bit_or 0x22 (flags % 2 ^ 32))

  module _ (some_bytes : bytes ≢ 0) (given : vaddr ≢ 0) (fits : vaddr + bytes < 2 ^ 64) where
    -- The state with the region, before its pages are mapped.
    abbrev with_region : Process
    with_region = record s { vmas = (added true).1 }
