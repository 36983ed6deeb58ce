-- ===== src/Pmm/Init.antt =====
-- `pmm_init_from_memmap` of kernel/pmm.c and its phases, without the log output and the self tests.
pub mod Releasing
pub mod Marking
pub mod Exact
use la_os.Common.{
  ℕ, zero, suc, ◌+◌, ◌-◌, ◌*◌, ◌/◌, ◌≡◌, Bool, true, false, not, ◌==◌, ltb, leb, if◌then◌else◌,
  Option, none, some, List, [], ◌∷◌, Outcome, ok, panic, ◌>>=◌, add64, sub64, page_size, u64_mod,
}
use la_os.Pmm.{Pmm, lowmem_limit, pmm_mark_used, pmm_mark_free}
use la_os.Pmm.Bitmap.{Bytes, bitmap_test}

-- `struct pmm_memmap_entry`; a `struct pmm_memmap` is the list of its entries.
pub record MemmapEntry : Type 0 where
  pub base : ℕ
  pub length : ℕ
  pub kind : ℕ  -- the field `type`

-- `PMM_MEMMAP_USABLE`.
abbrev pub memmap_usable : ℕ
memmap_usable = 0

abbrev pub is_usable : MemmapEntry → Bool
is_usable e = e.kind == memmap_usable

-- `pmm_scan`, over what it has counted so far: the counters start at 0, and `freed` is set last.
unfoldable pub scan_entries : Pmm → List MemmapEntry → Pmm
scan_entries p [] = record p { freed = p.usable }
scan_entries p (e ∷ es) =
    let pages = e.length / page_size in
    let q = record p { page_total = add64 p.page_total pages } in
    scan_entries
      (if is_usable e
        then record q { usable = add64 q.usable pages }
        else record q { page_none = add64 q.page_none pages })
      es

unfoldable pub pmm_scan : Pmm → List MemmapEntry → Pmm
unfolding scan_entries
pmm_scan p es =
    scan_entries (record p { page_total = 0; page_none = 0; page_self = 0; usable = 0; freed = 0 })
      es

-- The loop of `pmm_pick_max_entry` over `max_entry`, `max_length` and `max_end_addr`.
pub pick_loop :
    Option MemmapEntry → (max_length max_end : ℕ) → List MemmapEntry → Option MemmapEntry × ℕ
pick_loop max_entry max_length max_end [] = (max_entry, max_end)
pick_loop max_entry max_length max_end (e ∷ es) =
    let end = add64 e.base e.length in
    let longer = ltb max_length e.length in
    let skipped = pick_loop max_entry max_length max_end es in
    let taken =
      pick_loop (if longer then some e else max_entry) (if longer then e.length else max_length)
        (if ltb max_end end then end else max_end) es in
    if is_usable e then taken else skipped

abbrev require_entry : Option MemmapEntry × ℕ → Outcome (MemmapEntry × ℕ)
require_entry (none, _) = panic
require_entry (some e, max_end) = ok (e, max_end)

unfoldable pub pmm_pick_max_entry : List MemmapEntry → Outcome (MemmapEntry × ℕ)
unfolding pick_loop
pmm_pick_max_entry es = require_entry (pick_loop none 0 0 es)

abbrev pub round_pages : ℕ → ℕ
round_pages n = add64 n (page_size - 1) / page_size

abbrev pub bitmap_size : Pmm → ℕ
bitmap_size p = add64 p.total_pages 7 / 8

-- `memset(pmm_bitmap, 0xff, bitmap_size)` over the bytes `raw` that lie there.
abbrev pub filled : ℕ → Bytes → Bytes
filled size raw i = if ltb i size then 0xff else raw i

-- The result is the number of pages of the bitmap. `raw` is the memory at the start of
-- `max_entry`, where `pmm_bitmap` points from here on.
unfoldable pub pmm_install_bitmap : Bytes → Pmm → MemmapEntry → (max_end : ℕ) → Outcome (ℕ × Pmm)
pmm_install_bitmap raw p max_entry max_end =
    let q = record p { total_pages = round_pages max_end } in
    if ltb max_entry.length (bitmap_size q)
    then panic
    else ok (round_pages (bitmap_size q), record q { bitmap = filled (bitmap_size q) raw })

-- The variables of `pmm_release_usable`.
pub record Release : Type 0 where
  pub pmm : Pmm
  pub dont_touch : ℕ
  pub lost : ℕ

-- `for (j = 0; j < length; j += PAGE_SIZE)` makes this many rounds, with `j = k * PAGE_SIZE`. (Of a
-- length above 2^64 - PAGE_SIZE, `j` would wrap, and the loop would not end.)
abbrev pub rounds_of : ℕ → ℕ
rounds_of length = (length + (page_size - 1)) / page_size

-- The address and the page of round `k`.
abbrev pub page_phys : MemmapEntry → ℕ → ℕ
page_phys e k = add64 e.base (k * page_size)

abbrev pub page_of : MemmapEntry → ℕ → ℕ
page_of e k = page_phys e k / page_size

unfoldable pub release_page : Release → MemmapEntry → ℕ → Outcome Release
release_page r e k =
    if leb r.pmm.total_pages (page_of e k)
    then ok (record r { lost = add64 r.lost 1 })
    else if ltb (page_phys e k) lowmem_limit
    then ok (record r { dont_touch = add64 r.dont_touch 1 })
    else pmm_mark_free r.pmm (page_of e k) >>= λ p. ok (record r { pmm = p })

unfoldable pub release_pages : MemmapEntry → (rounds k : ℕ) → Release → Outcome Release
release_pages e zero k r = ok r
release_pages e (suc rounds) k r = release_page r e k >>= release_pages e rounds (k + 1)

unfoldable pub release_entries : List MemmapEntry → Release → Outcome Release
release_entries [] r = ok r
release_entries (e ∷ es) r =
    (if is_usable e then release_pages e (rounds_of e.length) 0 r else ok r) >>= release_entries es

unfoldable pub pmm_release_usable : Pmm → List MemmapEntry → Outcome Release
pmm_release_usable p es = release_entries es (record { pmm = p; dont_touch = 0; lost = 0 })

-- The loop of `pmm_mark_protected` over one region, from round `k`; `true` if it finds no free page.
unfoldable pub protected_pages : Pmm → MemmapEntry → (rounds k : ℕ) → Bool
protected_pages p e zero k = true
protected_pages p e (suc rounds) k =
    let idx = add64 (e.base / page_size) k in
    let rest = protected_pages p e rounds (k + 1) in
    if leb p.total_pages idx then true else if bitmap_test p.bitmap idx then rest else false

unfoldable pub pmm_mark_protected : Pmm → List MemmapEntry → (max_end : ℕ) → Outcome (Unit {0})
pmm_mark_protected p [] max_end = ok tt
pmm_mark_protected p (e ∷ es) max_end =
    let rest = pmm_mark_protected p es max_end in
    if leb max_end e.base
    then rest
    else if is_usable e
    then rest
    else if protected_pages p e (rounds_of e.length) 0
    then rest
    else panic

-- The loop that marks the pages of the bitmap itself.
unfoldable pub mark_self : Pmm → (start rounds j : ℕ) → Outcome Pmm
mark_self p start zero j = ok p
mark_self p start (suc rounds) j =
    (if bitmap_test p.bitmap (add64 start j) then ok p else pmm_mark_used p (add64 start j))
    >>= λ q. mark_self q start rounds (j + 1)

-- The corrections of `pinfo` after the release.
abbrev pub settle : Release → (bitmap_pages : ℕ) → Pmm
settle r bitmap_pages =
    let usable = sub64 (sub64 r.pmm.usable r.dont_touch) r.lost in
    let freed = sub64 (sub64 (sub64 r.pmm.freed r.dont_touch) r.lost) bitmap_pages in
    record (r.pmm) { page_self = bitmap_pages; usable = usable; freed = freed }

-- `pmm_init_from_memmap` once the bitmap lies at the start of `max_entry`.
unfoldable pub init_installed :
    List MemmapEntry → MemmapEntry → (max_end bitmap_pages : ℕ) → Pmm → Outcome Pmm
init_installed es max_entry max_end bitmap_pages q = pmm_release_usable q es >>= λ r.
    mark_self (settle r bitmap_pages) (max_entry.base / page_size) bitmap_pages 0 >>= λ s.
    pmm_mark_protected s es max_end >>= λ _. ok s

unfoldable pub pmm_init_from_memmap : Bytes → Pmm → List MemmapEntry → Outcome Pmm
pmm_init_from_memmap raw p es = pmm_pick_max_entry es >>= λ (max_entry, max_end).
    pmm_install_bitmap raw (pmm_scan p es) max_entry max_end >>= λ (bitmap_pages, q).
    init_installed es max_entry max_end bitmap_pages q
