-- ===== src/Pmm/Valid.antt =====
-- The invariant of kernel/pmm.c between calls.
use la_os.Common.{◌≤◌, ◌≡◌, ◌^◌}
use la_os.Pmm.{Pmm}
use la_os.Pmm.Bitmap.{IsBytes}
use la_os.Pmm.Count.{clear_count}

-- The counter `pinfo.page.freed` is the number of clear bits. Page indices below 2^52 are those of
-- 64-bit addresses.
pub record IsWf (p : Pmm) : Type 0 where
  pub bytes : IsBytes p.bitmap
  pub small : p.total_pages ≤ 2 ^ 52
  pub counted : p.freed ≡ clear_count p.bitmap p.total_pages
