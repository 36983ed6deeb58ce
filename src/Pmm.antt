-- ===== src/Pmm.antt =====
-- kernel/pmm.c: the allocator of physical pages. `Pmm` is the global state (`pmm_bitmap`,
-- `pmm_total_pages`, `pinfo`); each function runs under `pinfo.pmm_lock`, so it is one step.
pub mod Bitmap
pub mod Find
pub mod Count
pub mod Valid
pub mod Alloc
pub mod Free
pub mod Init
mod Tests
use la_os.Common.{
  ℕ, zero, suc, ◌+◌, ◌-◌, ◌*◌, ◌/◌, ◌%◌, ◌^◌, Bool, true, false, not, ◌&&◌, ◌||◌, ◌==◌, ltb, leb,
  if◌then◌else◌, Outcome, ok, panic, ◌>>=◌, add64, sub64, mul64, page_size, u64_mod,
}
use Bitmap.{Bytes, bitmap_set, bitmap_clear, bitmap_test}

pub record Pmm : Type 0 where
  pub bitmap : Bytes  -- what `pmm_bitmap` points to
  pub total_pages : ℕ
  pub page_total : ℕ
  pub page_none : ℕ
  pub page_self : ℕ
  pub usable : ℕ
  pub freed : ℕ

-- `PMM_LOWMEM_LIMIT` and `PMM_LOWMEM_PAGES`.
abbrev pub lowmem_limit : ℕ
lowmem_limit = 0x100000

abbrev pub lowmem_pages : ℕ
lowmem_pages = lowmem_limit / page_size

abbrev pub pmm_idx_safe : Pmm → ℕ → Bool
pmm_idx_safe p idx = leb lowmem_pages idx && ltb idx p.total_pages

abbrev pub pmm_account_alloc : Pmm → ℕ → Pmm
pmm_account_alloc p count = record p { freed = sub64 p.freed count }

abbrev pub pmm_account_free : Pmm → ℕ → Pmm
pmm_account_free p count = record p { freed = add64 p.freed count }

unfoldable pub pmm_mark_used : Pmm → ℕ → Outcome Pmm
pmm_mark_used p page_idx =
    if leb p.total_pages page_idx
    then panic
    else ok (record p { bitmap = bitmap_set p.bitmap page_idx })

unfoldable pub pmm_mark_free : Pmm → ℕ → Outcome Pmm
pmm_mark_free p page_idx =
    if leb p.total_pages page_idx
    then panic
    else ok (record p { bitmap = bitmap_clear p.bitmap page_idx })

-- The test that `pmm_find_run` makes of one page.
pub page_free : Pmm → ℕ → Bool
page_free p i = not (bitmap_test p.bitmap i) && pmm_idx_safe p i

-- `(uint64_t)-1`, the value of `pmm_find_run` when there is no run.
abbrev pub no_run : ℕ
no_run = u64_mod - 1

-- The loop of `pmm_find_run` with `rounds = hi - i`; `i` and `n` stay at most `hi`.
pub find_run_loop : Pmm → (count rounds i s n : ℕ) → ℕ
find_run_loop p count zero i s n = no_run
find_run_loop p count (suc rounds) i s n = elim (page_free p i) [
  | true ↦
      let s' = if n == 0 then i else s in
      let rest = find_run_loop p count rounds (i + 1) s' (n + 1) in
      if leb count (n + 1) then s' else rest
  | false ↦ find_run_loop p count rounds (i + 1) s 0
]

pub pmm_find_run : Pmm → (lo hi count : ℕ) → ℕ
unfolding find_run_loop
pmm_find_run p lo hi count = find_run_loop p count (hi - lo) lo 0 0

-- The loop of `pmm_alloc_run` that sets the bits of the run.
pub set_run : Bytes → (start rounds i : ℕ) → Bytes
set_run m start zero i = m
set_run m start (suc rounds) i = set_run (bitmap_set m (add64 start i)) start rounds (i + 1)

-- The result is the physical address, 0 for `NULL`.
pub pmm_alloc_run : Pmm → ℕ → ℕ × Pmm
pmm_alloc_run p count =
    let start = pmm_find_run p 0 p.total_pages count in
    if start == no_run then (0, p) else (
      mul64 start page_size,
      pmm_account_alloc (record p { bitmap = set_run p.bitmap start count 0 }) count,
    )

pub pmm_alloc : Pmm → ℕ × Pmm
pmm_alloc p = pmm_alloc_run p 1

pub pmm_alloc_pages : Pmm → ℕ → ℕ × Pmm
pmm_alloc_pages p count = if count == 0 then (0, p) else pmm_alloc_run p count

pub pmm_free : Pmm → ℕ → Outcome Pmm
pmm_free p addr =
    if addr == 0
    then ok p
    else if not (addr % page_size == 0)
    then panic
    else let page_idx = addr / page_size in
      if leb p.total_pages page_idx
      then panic
      else if not (bitmap_test p.bitmap page_idx)
      then panic
      else ok (pmm_account_free (record p { bitmap = bitmap_clear p.bitmap page_idx }) 1)

-- The loop of `pmm_free_pages`; a bit that is clear already is a double free.
pub clear_run : Bytes → (start rounds i : ℕ) → Outcome Bytes
clear_run m start zero i = ok m
clear_run m start (suc rounds) i =
    let idx = add64 start i in
    let rest = clear_run (bitmap_clear m idx) start rounds (i + 1) in
    if bitmap_test m idx then rest else panic

pub pmm_free_pages : Pmm → (ptr count : ℕ) → Outcome Pmm
pmm_free_pages p ptr count =
    if ptr == 0 || count == 0
    then ok p
    else let start = ptr / page_size in
      if leb p.total_pages start
      then panic
      else if ltb p.total_pages (add64 start count)
      then panic
      else clear_run p.bitmap start count 0 >>= λ m.
          ok (pmm_account_free (record p { bitmap = m }) count)
