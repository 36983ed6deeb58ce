-- ===== src/Pmm/Free.antt =====
-- What `pmm_free` and `pmm_free_pages` of kernel/pmm.c change, and when they panic.
use la_os.Common.{
  ℕ, ◌+◌, ◌/◌, ◌%◌, ◌≤◌, ◌<◌, ◌≡◌, ◌≢◌, refl, ap, ◌⊎◌, inl, inr, true, false, not, ◌&&◌, arith, leb,
  Bool-cases, u64_mod, add64, page_size, Outcome, ok, panic, Outcome-cases,
}
use la_os.Pmm.{Pmm, clear_run, pmm_account_free, pmm_free, pmm_free_pages, pmm_alloc_pages}
use la_os.Pmm.Bitmap.{Bytes, bitmap_test, bitmap_clear, bitmap_clear-IsBytes, bitmap_test-clear}
use la_os.Pmm.Count.{
  within, clear_count, clear_count-clear, clear_count-le, Cleared, clear_run-Cleared, clear_run-ok,
}
use la_os.Pmm.Valid.{IsWf}
use la_os.Pmm.Alloc.{Allocated, AllocResult, page_free-safe, alloc_pages-Result}

-- Each of the `count` pages from `s` is in use.
abbrev pub AllUsed : Bytes → ℕ → ℕ → Type 0
AllUsed m s count = (j : ℕ) → s ≤ j → j < s + count → bitmap_test m j ≡ true

-- The `count` pages from `s` have been given back, and nothing else has changed.
pub record Freed (p : Pmm) (count s : ℕ) (p' : Pmm) : Type 0 where
  pub in_range : s + count ≤ p.total_pages
  pub were_used : AllUsed p.bitmap s count
  pub bits :
      (j : ℕ) → bitmap_test p'.bitmap j ≡ (not (within s (s + count) j) && bitmap_test p.bitmap j)
  pub freed : p'.freed ≡ p.freed + count
  pub total : p'.total_pages ≡ p.total_pages
  pub usable : p'.usable ≡ p.usable
  pub wf : IsWf p'

-- What a release of `count` pages from page `s` comes to: these pages are given back, or the call
-- panics because they do not all exist, or are not all in use.
abbrev pub FreeResult : Pmm → (count s : ℕ) → Outcome Pmm → Type 0
FreeResult p count s r =
    ((p' : Pmm) × (r ≡ ok p') × Freed p count s p')
    ⊎ ((r ≡ panic) × (s + count ≤ p.total_pages → ¬ AllUsed p.bitmap s count))

module _ (p : Pmm) (wf : IsWf p) where
  pmm_free-Freed :
      (s : ℕ)
      → s < p.total_pages
      → bitmap_test p.bitmap s ≡ true
      → Freed p 1 s (pmm_account_free (record p { bitmap = bitmap_clear p.bitmap s }) 1)
  pmm_free-Freed s lt used = record {
    in_range = omega arith;
    were_used = λ j a b. let e : j ≡ s = omega arith in rw e used;
    bits = λ j. ground (arith, bitmap_test-clear p.bitmap s j wf.bytes);
    freed = freed;
    total = refl;
    usable = refl;
    wf = record {
      bytes = bitmap_clear-IsBytes p.bitmap s wf.bytes;
      small = wf.small;
      counted = omega (arith, freed, counted, wf.counted);
    };
  }
    where
      counted :
          clear_count (bitmap_clear p.bitmap s) p.total_pages
          ≡ clear_count p.bitmap p.total_pages + 1
      counted = clear_count-clear p.bitmap s p.total_pages wf.bytes lt used

      freed : add64 p.freed 1 ≡ p.freed + 1
      freed = omega (arith, wf.counted, wf.small, clear_count-le p.bitmap p.total_pages)

  -- A release of one page by its address: at an unaligned address `pmm_free` panics; at an aligned
  -- one it gives the page back, or panics if there is no such page in use. `NULL` is ignored.
  pub pmm_free-Result :
      (addr : ℕ)
      → (addr ≡ 0 → pmm_free p addr ≡ ok p)
        × (addr % page_size ≢ 0 → pmm_free p addr ≡ panic)
        × (addr ≢ 0 → addr % page_size ≡ 0 → FreeResult p 1 (addr / page_size) (pmm_free p addr))
  unfolding pmm_free
  pmm_free-Result addr = (λ e. ground arith, λ e. ground arith, aligned)
    where
      aligned :
          addr ≢ 0 → addr % page_size ≡ 0 → FreeResult p 1 (addr / page_size) (pmm_free p addr)
      aligned ne al = elim (Bool-cases (leb p.total_pages (addr / page_size))) [
        | inl out ↦ inr (ground arith, λ le u. absurd (ground arith))
        | inr in_range ↦ elim (Bool-cases (bitmap_test p.bitmap (addr / page_size))) [
          | inl used ↦ inl (_, ground arith, pmm_free-Freed (addr / page_size) (ground arith) used)
          | inr clear ↦ inr (ground arith, λ le u. ground (arith, u (addr / page_size)))
        ]
      ]

  clear_run-Freed :
      (s count : ℕ) {m : Bytes}
      → s + count ≤ p.total_pages
      → clear_run p.bitmap s count 0 ≡ ok m
      → Freed p count s (pmm_account_free (record p { bitmap = m }) count)
  clear_run-Freed s count {m} le e = record {
    in_range = le;
    were_used = λ j a b. c.were_set j (omega arith) (omega arith);
    bits = λ j. ground (arith, c.bits j);
    freed = freed;
    total = refl;
    usable = refl;
    wf = record {
      bytes = c.bytes;
      small = wf.small;
      counted = omega (arith, freed, counted, wf.counted);
    };
  }
    where
      c : Cleared s p.bitmap m count 0
      c = clear_run-Cleared s p.bitmap count 0 wf.bytes (omega (arith, wf.small)) e

      counted : clear_count m p.total_pages ≡ clear_count p.bitmap p.total_pages + count
      counted = c.count p.total_pages (omega arith)

      freed : add64 p.freed count ≡ p.freed + count
      freed = omega (arith, counted, wf.counted, wf.small, clear_count-le m p.total_pages)

  AllUsed-absurd :
      (s count : ℕ)
      → s + count ≤ p.total_pages
      → AllUsed p.bitmap s count
      → ¬ (clear_run p.bitmap s count 0 ≡ panic)
  AllUsed-absurd s count le u e =
      let (m, e') =
        clear_run-ok s p.bitmap count 0 wf.bytes (omega (arith, wf.small))
          (λ j a b. u j (omega arith) (omega arith)) in
      ground arith

  -- A release of `count` pages, where the last page's index does not wrap: all of them are given
  -- back, or the call panics because they do not all exist, or are not all in use. `NULL` and the
  -- count 0 are ignored.
  pub pmm_free_pages-Result :
      (ptr count : ℕ)
      → ptr / page_size + count < u64_mod
      → (ptr ≡ 0 ⊎ count ≡ 0 → pmm_free_pages p ptr count ≡ ok p)
        × (ptr ≢ 0 → count ≢ 0 → FreeResult p count (ptr / page_size) (pmm_free_pages p ptr count))
  unfolding pmm_free_pages
  pmm_free_pages-Result ptr count fits = (λ e. ground arith, main)
    where
      s : ℕ
      s = ptr / page_size

      main : ptr ≢ 0 → count ≢ 0 → FreeResult p count s (pmm_free_pages p ptr count)
      main pn cn = elim (Bool-cases (leb (s + count) p.total_pages)) [
        | inr out ↦ inr (ground arith, λ le u. absurd (ground arith))
        | inl fit ↦ elim (Outcome-cases (clear_run p.bitmap s count 0)) [
          | inl (m, e) ↦ inl (_, ground arith, clear_run-Freed s count (ground arith) e)
          | inr e ↦ inr (ground arith, λ le u. AllUsed-absurd s count le u e)
        ]
      ]

module _ (p : Pmm) (count : ℕ) (pos : 0 < count) where
  -- The release `r` of what the allocation from `p` has taken leads back to the bits of `p`.
  abbrev Undone : ℕ × Pmm → Type 0
  Undone r =
      (p' : Pmm) × (pmm_free_pages r.1 r.0 count ≡ ok p')
      × ((j : ℕ) → bitmap_test p'.bitmap j ≡ bitmap_test p.bitmap j)
      × (p'.freed ≡ p.freed)
      × IsWf p'

  Freed-Undone :
      (s : ℕ) (r : ℕ × Pmm)
      → r.0 / page_size ≡ s
      → Allocated p count s r.1
      → FreeResult r.1 count s (pmm_free_pages r.1 r.0 count)
      → Undone r
  Freed-Undone s r e a (inl (p', ran, f)) = (
    p',
    ran,
    λ j. ground (arith, a.bits j, f.bits j, page_free-used j),
    omega (arith, f.freed, a.freed),
    f.wf,
  )
    where
      page_free-used : (j : ℕ) → within s (s + count) j ≡ true → bitmap_test p.bitmap j ≡ false
      page_free-used j h = (page_free-safe p j (a.were_free j (ground arith) (ground arith))).2
  Freed-Undone s r e a (inr (stopped, why)) =
      absurd (why (omega (arith, a.in_range, a.total)) λ j lo hi. ground (arith, a.bits j))

  Result-Undone : IsWf p → (r : ℕ × Pmm) → AllocResult p count r → r.0 ≢ 0 → Undone r
  Result-Undone wf r (inl (s, e, a)) got = Freed-Undone s r page a (
      rw page at (
        (pmm_free_pages-Result r.1 a.wf r.0 count (omega (arith, page, a.in_range, wf.small))).1 got
          (omega arith)))
    where
      page : r.0 / page_size ≡ s
      page = omega (arith, e)
  Result-Undone wf r (inr (e, _)) got = absurd (got (ap (λ (x : ℕ × Pmm). x.0) e))

-- Pages that `pmm_alloc_pages` hands out can be given back at once, and this undoes the allocation:
-- the same pages are in use as before, and as many are counted free.
pub alloc_pages-free_pages :
    (p : Pmm) (count : ℕ)
    → IsWf p
    → 0 < count
    → (pmm_alloc_pages p count).0 ≢ 0
    → (p' : Pmm) × (pmm_free_pages (pmm_alloc_pages p count).1 (pmm_alloc_pages p count).0 count
        ≡ ok p')
      × ((j : ℕ) → bitmap_test p'.bitmap j ≡ bitmap_test p.bitmap j)
      × (p'.freed ≡ p.freed)
      × IsWf p'
alloc_pages-free_pages p count wf pos got =
    Result-Undone p count pos wf (pmm_alloc_pages p count) (alloc_pages-Result p count wf pos).0 got
