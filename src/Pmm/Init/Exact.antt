-- ===== src/Pmm/Init/Exact.antt =====
-- The state that `pmm_init_from_memmap` of kernel/pmm.c leaves: which pages are free.
use la_os.Common.{
  ℕ, zero, suc, ◌+◌, ◌/◌, ◌^◌, ◌≤◌, ◌<◌, ◌≡◌, ◌⊎◌, inl, inr, subst, true, false, ◌==◌, Bool-cases,
  ==_iff, List, [], ◌∷◌, All, ok, ◌>>=◌, returned, arith, page_size,
}
use la_os.Pmm.{Pmm}
use la_os.Pmm.Bitmap.{Bytes, IsBytes, bitmap_test, bitmap_test-full}
use la_os.Pmm.Init.{
  MemmapEntry, is_usable, Release, rounds_of, round_pages, bitmap_size, pmm_release_usable,
  protected_pages, pmm_mark_protected, mark_self, settle, pmm_scan, pmm_pick_max_entry,
  pmm_install_bitmap, init_installed, pmm_init_from_memmap,
}
use la_os.Pmm.Init.Releasing.{InUsable, Frees, release_entries-Releases}
use la_os.Pmm.Init.Marking.{InRun, Marks, mark_self-Marks}

-- The pages of a region that is not usable are in use, as far as the bitmap reaches.
abbrev pub IsProtected : Pmm → (max_end : ℕ) → MemmapEntry → Type 0
IsProtected p max_end e =
    is_usable e ≡ false
    → e.base < max_end
    → (k : ℕ) → k < rounds_of e.length
    → e.base / page_size + k < p.total_pages
    → bitmap_test p.bitmap (e.base / page_size + k) ≡ true

-- A booted allocator `s` over the regions `es`, whose bitmap lies at the start of `max_entry`.
pub record Booted (es : List MemmapEntry) (max_entry : MemmapEntry) (max_end : ℕ) (s : Pmm)
    : Type 0 where
  pub reach : s.total_pages ≡ round_pages max_end
  pub bytes : IsBytes s.bitmap
  pub free_only :
      (j : ℕ)
      → j < s.total_pages
      → bitmap_test s.bitmap j ≡ false
      → InUsable es j × ¬ InRun (max_entry.base / page_size) 0 (round_pages (bitmap_size s)) j
  pub free_all :
      (j : ℕ)
      → j < s.total_pages
      → InUsable es j
      → ¬ InRun (max_entry.base / page_size) 0 (round_pages (bitmap_size s)) j
      → bitmap_test s.bitmap j ≡ false
  pub protected : All (IsProtected s max_end) es

protected_pages-used :
    (p : Pmm) (e : MemmapEntry) (rounds k : ℕ)
    → p.total_pages ≤ 2 ^ 52
    → protected_pages p e rounds k ≡ true
    → (i : ℕ) → k ≤ i
    → i < k + rounds
    → e.base / page_size + i < p.total_pages
    → bitmap_test p.bitmap (e.base / page_size + i) ≡ true
unfolding protected_pages
protected_pages-used p e zero k small h i lo hi fits = absurd (omega arith)
protected_pages-used p e (suc rounds) k small h i lo hi fits = elim (Bool-cases (i == k)) [
  | inl here ↦ let same : i ≡ k = (==_iff i k).0 here in rw same (ground arith)
  | inr later ↦
      protected_pages-used p e rounds (k + 1) small (ground arith) i (ground arith) (omega arith)
        fits
]

mark-IsProtected :
    (p : Pmm) (es : List MemmapEntry) (max_end : ℕ)
    → p.total_pages ≤ 2 ^ 52
    → pmm_mark_protected p es max_end ≡ ok tt
    → All (IsProtected p max_end) es
unfolding pmm_mark_protected
mark-IsProtected p [] max_end small h = tt
mark-IsProtected p (e ∷ es) max_end small h = (
  λ u lt k kr fits.
      protected_pages-used p e (rounds_of e.length) 0 small (ground arith) k (omega arith)
        (omega arith) fits,
  mark-IsProtected p es max_end small (ground arith),
)

-- What `pmm_install_bitmap` leaves: every page is in use.
record Installed (max_end bitmap_pages : ℕ) (q : Pmm) : Type 0 where
  pages : bitmap_pages ≡ round_pages (bitmap_size q)
  total : q.total_pages ≡ round_pages max_end
  bytes : IsBytes q.bitmap
  all_used : (j : ℕ) → j < q.total_pages → bitmap_test q.bitmap j ≡ true

install_bitmap-Installed :
    (raw : Bytes) (p : Pmm) (max_entry : MemmapEntry) (max_end bitmap_pages : ℕ) (q : Pmm)
    → IsBytes raw
    → pmm_install_bitmap raw p max_entry max_end ≡ ok (bitmap_pages, q)
    → Installed max_end bitmap_pages q
unfolding pmm_install_bitmap
install_bitmap-Installed raw p max_entry max_end bitmap_pages q h e = record {
  pages = ground arith;
  total = ground arith;
  bytes = λ i. ground (arith, h i);
  all_used = λ j lt. bitmap_test-full q.bitmap j (ground arith);
}

module _ (es : List MemmapEntry) (max_entry : MemmapEntry) (max_end bitmap_pages : ℕ) where
  init-steps :
      {q s : Pmm} {r : Release}
      → Installed max_end bitmap_pages q
      → Frees (record { pmm = q; dont_touch = 0; lost = 0 }) r (InUsable es)
      → Marks (settle r bitmap_pages) s (max_entry.base / page_size) 0 (0 + bitmap_pages)
      → All (IsProtected s max_end) es
      → Booted es max_entry max_end s
  init-steps {q} {s} {r} inst f m prot = record {
    reach = omega (arith, total, inst.total);
    bytes = m.bytes;
    free_only = λ j lt clear.
        let (clear', out) = m.sound j clear in
        (from_release j lt (f.sound j clear'), rw (← size) out);
    free_all = λ j lt u out. m.complete j (f.complete j (omega (arith, total)) u) (rw size out);
    protected = prot;
  }
    where
      total : s.total_pages ≡ q.total_pages
      total = omega (arith, m.total, f.total)

      size : 0 + bitmap_pages ≡ round_pages (bitmap_size s)
      size = omega (arith, inst.pages, total)

      from_release :
          (j : ℕ)
          → j < s.total_pages
          → (bitmap_test q.bitmap j ≡ false) ⊎ InUsable es j
          → InUsable es j
      from_release j lt (inl clear) = absurd (ground (arith, inst.all_used j, total))
      from_release j lt (inr u) = u

  init_installed-Booted :
      {q s : Pmm}
      → Installed max_end bitmap_pages q
      → init_installed es max_entry max_end bitmap_pages q ≡ ok s
      → Booted es max_entry max_end s
  unfolding init_installed pmm_release_usable
  init_installed-Booted {q} {s} inst e =
      let (r, ran, f) =
        release_entries-Releases es (record { pmm = q; dont_touch = 0; lost = 0 }) inst.bytes in
      marked r f (rw ran at e)
    where
      start : ℕ
      start = max_entry.base / page_size

      marked :
          (r : Release)
          → Frees (record { pmm = q; dont_touch = 0; lost = 0 }) r (InUsable es)
          → (mark_self (settle r bitmap_pages) start bitmap_pages 0 >>= λ t.
              pmm_mark_protected t es max_end >>= λ _. ok t)
            ≡ ok s
          → Booted es max_entry max_end s
      marked r f e =
          let (t, e₁, e₂) = returned (mark_self (settle r bitmap_pages) start bitmap_pages 0) _ e in
          let (u, e₃, e₄) = returned (pmm_mark_protected t es max_end) _ e₂ in
          let m = mark_self-Marks (settle r bitmap_pages) t start bitmap_pages 0 f.bytes e₁ in
          let same : t ≡ s = cc in
          subst (Booted es max_entry max_end) same (
            init-steps inst f m
              (mark-IsProtected t es max_end (omega (arith, m.total, f.total, inst.total)) e₃))

-- Where `pmm_init_from_memmap` returns: a page is free exactly if it lies in a usable region at or
-- above 1 MiB and is not a page of the bitmap, which lies at the start of the region that
-- `pmm_pick_max_entry` chose; and no page of another region is free.
pub init-Booted :
    (raw : Bytes) (p s : Pmm) (es : List MemmapEntry)
    → IsBytes raw
    → pmm_init_from_memmap raw p es ≡ ok s
    → (max_entry : MemmapEntry) × (max_end : ℕ) × (pmm_pick_max_entry es ≡ ok (max_entry, max_end))
      × Booted es max_entry max_end s
unfolding pmm_init_from_memmap
init-Booted raw p s es h e =
    let (picked, e₁, f₁) = returned (pmm_pick_max_entry es) _ e in
    let (laid, e₂, f₂) = returned (pmm_install_bitmap raw (pmm_scan p es) picked.0 picked.1) _ f₁ in
    (
      picked.0,
      picked.1,
      e₁,
      init_installed-Booted es picked.0 picked.1 laid.0
          (install_bitmap-Installed raw (pmm_scan p es) picked.0 picked.1 laid.0 laid.1 h e₂) f₂,
    )
