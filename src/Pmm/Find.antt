-- ===== src/Pmm/Find.antt =====
-- The search of kernel/pmm.c for consecutive free pages.
use la_os.Common.{
  ℕ, zero, suc, ◌+◌, ◌-◌, ◌≤◌, ◌<◌, ◌≡◌, ◌≢◌, refl, true, false, arith, Bool-cases, inl, inr, leb,
  ◌==◌, if◌then◌else◌,
}
use la_os.Pmm.{Pmm, page_free, no_run, find_run_loop, pmm_find_run}

-- `count` pages from `s` can be handed out.
abbrev pub RunAt : Pmm → ℕ → ℕ → Type 0
RunAt p s count = (i : ℕ) → s ≤ i → i < s + count → page_free p i ≡ true

-- What a search over `[lo, hi)` returns: `s` is the first run, or there is none.
abbrev pub IsFirst : Pmm → (lo hi count s : ℕ) → Type 0
IsFirst p lo hi count s =
    (s ≢ no_run → (lo ≤ s) × (s + count ≤ hi) × RunAt p s count)
    × ((t : ℕ) → lo ≤ t → t + count ≤ hi → RunAt p t count → s ≤ t)

-- What the loop knows at page `i`: the `n` pages below `i` are free, fewer than `count`, and no
-- run starts below them.
record Scanned (p : Pmm) (lo hi count i s n : ℕ) : Type 0 where
  short : n < count
  start : n ≢ 0 → s + n ≡ i
  low : lo + n ≤ i
  free : (j : ℕ) → i ≤ j + n → j < i → page_free p j ≡ true
  none_below : (t : ℕ) → lo ≤ t → t + count ≤ hi → RunAt p t count → i ≤ t + n

Scanned-free :
    {p : Pmm} {lo hi count i s n : ℕ} (s' : ℕ)
    → Scanned p lo hi count i s n
    → page_free p i ≡ true
    → n + 1 < count
    → s' + n ≡ i
    → Scanned p lo hi count (i + 1) s' (n + 1)
Scanned-free {p} {i} {n} s' h f lt e = record {
  short = lt;
  start = λ ne. omega arith;
  low = omega (arith, h.low);
  free = λ j a b. ground (arith, h.free j, f);
  none_below = λ t a b run. omega (arith, h.none_below t a b run);
}

Scanned-used :
    {p : Pmm} {lo hi count i s n : ℕ}
    → Scanned p lo hi count i s n
    → page_free p i ≡ false
    → i < hi
    → Scanned p lo hi count (i + 1) s 0
Scanned-used {p} {i} {n} h u lt = record {
  short = omega (arith, h.short);
  start = λ ne. absurd (ne refl);
  low = omega (arith, h.low);
  free = λ j a b. absurd (omega arith);
  none_below = λ t a b run. ground (arith, h.none_below t a b run, h.short, run i);
}

found-IsFirst :
    {p : Pmm} {lo hi count i s n : ℕ} (s' : ℕ)
    → Scanned p lo hi count i s n
    → page_free p i ≡ true
    → i < hi
    → count ≤ n + 1
    → s' + n ≡ i
    → IsFirst p lo hi count s'
found-IsFirst {p} {i} {n} s' h f lt le e = (
  λ ne. (omega (arith, h.low), omega (arith, h.short), λ j a b. ground (arith, h.free j, f)),
  λ t a b run. omega (arith, h.none_below t a b run),
)

run_start : (i s n : ℕ) → (n ≢ 0 → s + n ≡ i) → (if n == 0 then i else s) + n ≡ i
run_start i s n h = ground arith

find_run_loop-IsFirst :
    (p : Pmm) (lo hi count rounds i s n : ℕ)
    → i + rounds ≡ hi
    → hi ≤ no_run
    → Scanned p lo hi count i s n
    → IsFirst p lo hi count (find_run_loop p count rounds i s n)
unfolding find_run_loop
find_run_loop-IsFirst p lo hi count zero i s n e top h =
    (λ ne. absurd (ne refl), λ t a b run. absurd (omega (arith, h.none_below t a b run, h.short)))
find_run_loop-IsFirst p lo hi count (suc rounds) i s n e top h = elim (Bool-cases (page_free p i)) [
  | inr u ↦
      rw (u, find_run_loop)
        (find_run_loop-IsFirst p lo hi count rounds (i + 1) s 0 (omega arith) top
          (Scanned-used h u (omega arith)))
  | inl f ↦ elim (Bool-cases (leb count (n + 1))) [
    | inl done ↦
        rw (f, done, find_run_loop)
          (found-IsFirst (if n == 0 then i else s) h f (omega arith) (ground arith)
            (run_start i s n h.start))
    | inr more ↦
        rw (f, more, find_run_loop)
          (find_run_loop-IsFirst p lo hi count rounds (i + 1) (if n == 0 then i else s) (n + 1)
            (omega arith) top
            (Scanned-free (if n == 0 then i else s) h f (ground arith) (run_start i s n h.start)))
  ]
]

-- `pmm_find_run` returns the first run.
pub find_run-IsFirst :
    (p : Pmm) (lo hi count : ℕ)
    → 0 < count
    → lo ≤ hi
    → hi ≤ no_run
    → IsFirst p lo hi count (pmm_find_run p lo hi count)
unfolding pmm_find_run
find_run-IsFirst p lo hi count pos le top =
    find_run_loop-IsFirst p lo hi count (hi - lo) lo 0 0 (omega arith) top (record {
      short = pos;
      start = λ ne. absurd (ne refl);
      low = omega arith;
      free = λ j a b. absurd (omega arith);
      none_below = λ t a b run. omega arith;
    })
