-- ===== src/Pmm/Alloc.antt =====
-- What `pmm_alloc` and `pmm_alloc_pages` of kernel/pmm.c return, and what they change.
use la_os.Common.{
  ℕ, ◌+◌, ◌*◌, ◌≤◌, ◌<◌, ◌≡◌, ◌≢◌, refl, ◌⊎◌, inl, inr, true, false, ◌||◌, arith, ◌==◌, Bool-cases,
  ==_iff, u64_mod, page_size,
}
use la_os.Pmm.{
  Pmm, lowmem_pages, page_free, no_run, pmm_find_run, set_run, pmm_alloc_run, pmm_alloc,
  pmm_alloc_pages, pmm_account_alloc,
}
use la_os.Pmm.Bitmap.{bitmap_test}
use la_os.Pmm.Count.{
  within, clear_count, clear_count-le, set_run-IsBytes, bitmap_test-set_run, clear_count-set_run,
}
use la_os.Pmm.Find.{RunAt, IsFirst, find_run-IsFirst}
use la_os.Pmm.Valid.{IsWf}

pub page_free-safe :
    (p : Pmm) (i : ℕ)
    → page_free p i ≡ true
    → (lowmem_pages ≤ i) × (i < p.total_pages) × (bitmap_test p.bitmap i ≡ false)
unfolding page_free
page_free-safe p i h = ground arith

-- A run of `count` pages from `s` has been handed out, and nothing else has changed.
pub record Allocated (p : Pmm) (count s : ℕ) (p' : Pmm) : Type 0 where
  pub above_lowmem : lowmem_pages ≤ s
  pub in_range : s + count ≤ p.total_pages
  pub were_free : RunAt p s count
  pub first : (t : ℕ) → t + count ≤ p.total_pages → RunAt p t count → s ≤ t
  pub bits : (j : ℕ) → bitmap_test p'.bitmap j ≡ (within s (s + count) j || bitmap_test p.bitmap j)
  pub freed : p'.freed + count ≡ p.freed
  pub total : p'.total_pages ≡ p.total_pages
  pub usable : p'.usable ≡ p.usable
  pub wf : IsWf p'

-- The result of an allocation of `count` pages: the address of the first run, or 0 for `NULL`,
-- with nothing changed, when there is none.
abbrev pub AllocResult : Pmm → ℕ → ℕ × Pmm → Type 0
AllocResult p count r =
    ((s : ℕ) × (r.0 ≡ s * page_size) × Allocated p count s r.1)
    ⊎ ((r ≡ (0, p)) × ((t : ℕ) → t + count ≤ p.total_pages → ¬ RunAt p t count))

module _ (p : Pmm) (count : ℕ) (wf : IsWf p) (pos : 0 < count) where
  abbrev start : ℕ
  start = pmm_find_run p 0 p.total_pages count

  abbrev after : Pmm
  after = pmm_account_alloc (record p { bitmap = set_run p.bitmap start count 0 }) count

  first : IsFirst p 0 p.total_pages count start
  first = find_run-IsFirst p 0 p.total_pages count pos (omega arith) (omega (arith, wf.small))

  start-Allocated : start ≢ no_run → Allocated p count start after
  start-Allocated ne = record {
    above_lowmem = omega (arith, page_free-safe p start (run start (omega arith) (omega arith)));
    in_range = bound;
    were_free = run;
    first = λ t le r. first.1 t (omega arith) le r;
    bits = λ j. ground (arith, bitmap_test-set_run start p.bitmap count 0 j wf.bytes fits);
    freed = freed;
    total = refl;
    usable = refl;
    wf = record {
      bytes = set_run-IsBytes p.bitmap start count 0 wf.bytes;
      small = wf.small;
      counted =
          omega
            (arith, freed, counted, wf.counted, clear_count-le p.bitmap p.total_pages, wf.small);
    };
  }
    where
      run : RunAt p start count
      run = (first.0 ne).2

      bound : start + count ≤ p.total_pages
      bound = (first.0 ne).1

      fits : start + 0 + count < u64_mod
      fits = omega (arith, bound, wf.small)

      counted :
          clear_count (set_run p.bitmap start count 0) p.total_pages + count
          ≡ clear_count p.bitmap p.total_pages
      counted =
          clear_count-set_run start p.bitmap count 0 p.total_pages wf.bytes (omega (arith, bound))
            (omega (arith, wf.small))
            λ j a b. (page_free-safe p j (run j (omega arith) (omega arith))).2

      freed : after.freed + count ≡ p.freed
      freed = omega (arith, counted, wf.counted, clear_count-le p.bitmap p.total_pages, wf.small)

  pmm_alloc_run-Result : AllocResult p count (pmm_alloc_run p count)
  unfolding pmm_alloc_run
  pmm_alloc_run-Result = elim (Bool-cases (start == no_run)) [
    | inl none_left ↦ rw none_left (
        inr (
          refl,
          λ t le r.
              omega
                (arith, first.1 t (omega arith) le r, (==_iff start no_run).0 none_left, wf.small),
        ))
    | inr some_left ↦ rw some_left (
        inl (
          start,
          omega (arith, (start-Allocated (ground arith)).in_range, wf.small),
          start-Allocated (ground arith),
        ))
  ]

-- A call of `pmm_alloc_pages` for at least one page, or of `pmm_alloc`, returns the first run of
-- free pages above the low memory and takes just these, or returns `NULL` with nothing changed
-- when there is no such run.
pub alloc_pages-Result :
    (p : Pmm) (count : ℕ)
    → IsWf p
    → 0 < count
    → AllocResult p count (pmm_alloc_pages p count) × AllocResult p 1 (pmm_alloc p)
unfolding pmm_alloc_pages pmm_alloc
alloc_pages-Result p count wf pos =
    (rw nonzero (pmm_alloc_run-Result p count wf pos), pmm_alloc_run-Result p 1 wf (omega arith))
  where
    nonzero : (count == 0) ≡ false
    nonzero = ground arith
