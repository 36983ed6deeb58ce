-- ===== src/Pmm/Init/Releasing.antt =====
-- Which bits the release loops of kernel/pmm.c clear.
use la_os.Common.{
  ℕ, zero, suc, ◌+◌, ◌≤◌, ◌<◌, ◌≡◌, ◌⊎◌, inl, inr, refl, Bool, true, false, ◌==◌, ltb, leb,
  if◌then◌else◌, Bool-cases, ==_iff, ap, List, [], ◌∷◌, Outcome, ok, ◌>>=◌, arith, add64,
}
use native.Mathlib.Nat.{zero-add}
use la_os.Pmm.{Pmm, lowmem_limit, pmm_mark_free}
use la_os.Pmm.Bitmap.{IsBytes, bitmap_clear, bitmap_test, bitmap_test-clear, bitmap_clear-IsBytes}
use la_os.Pmm.Init.{
  MemmapEntry, is_usable, Release, rounds_of, page_phys, page_of, release_page, release_pages,
  release_entries,
}

-- Page `j` is that of a round of region `e` from `lo` on, below `hi`, above the low memory.
abbrev pub Visited : MemmapEntry → (lo hi j : ℕ) → Type 0
Visited e lo hi j =
    (k : ℕ) × (lo ≤ k) × (k < hi) × (lowmem_limit ≤ page_phys e k) × (j ≡ page_of e k)

-- Page `j` lies in a usable region, above the low memory.
abbrev pub InUsable : List MemmapEntry → ℕ → Type 0
InUsable [] j = ⊥
InUsable (e ∷ es) j = ((is_usable e ≡ true) × Visited e 0 (rounds_of e.length) j) ⊎ InUsable es j

-- From `r` to `r'` just the pages of `P` have been freed.
pub record Frees (r r' : Release) (P : ℕ → Type 0) : Type 0 where
  pub total : r'.pmm.total_pages ≡ r.pmm.total_pages
  pub bytes : IsBytes r'.pmm.bitmap
  pub sound :
      (j : ℕ) → bitmap_test r'.pmm.bitmap j ≡ false → (bitmap_test r.pmm.bitmap j ≡ false) ⊎ P j
  pub kept : (j : ℕ) → bitmap_test r.pmm.bitmap j ≡ false → bitmap_test r'.pmm.bitmap j ≡ false
  pub complete : (j : ℕ) → j < r.pmm.total_pages → P j → bitmap_test r'.pmm.bitmap j ≡ false

Frees-none : (r : Release) → IsBytes r.pmm.bitmap → Frees r r (λ j. ⊥)
Frees-none r h = record {
  total = refl;
  bytes = h;
  sound = λ j e. inl e;
  kept = λ j e. e;
  complete = λ j lt e. absurd e;
}

Frees-append :
    {r s t : Release} {P Q : ℕ → Type 0} → Frees r s P → Frees s t Q → Frees r t (λ j. P j ⊎ Q j)
Frees-append {r} {s} {t} {P} {Q} f g = record {
  total = omega (arith, f.total, g.total);
  bytes = g.bytes;
  sound = λ j e. back j (g.sound j e);
  kept = λ j e. g.kept j (f.kept j e);
  complete = λ j lt e. forth j lt e;
}
  where
    back :
        (j : ℕ)
        → (bitmap_test s.pmm.bitmap j ≡ false) ⊎ Q j
        → (bitmap_test r.pmm.bitmap j ≡ false) ⊎ (P j ⊎ Q j)
    back j (inl e) = elim (f.sound j e) [ inl a ↦ inl a | inr b ↦ inr (inl b) ]
    back j (inr b) = inr (inr b)

    forth : (j : ℕ) → j < r.pmm.total_pages → P j ⊎ Q j → bitmap_test t.pmm.bitmap j ≡ false
    forth j lt (inl a) = g.kept j (f.complete j lt a)
    forth j lt (inr b) = g.complete j (omega (arith, f.total)) b

Frees-iff :
    {r s : Release} {P Q : ℕ → Type 0}
    → Frees r s P
    → ((j : ℕ) → P j → Q j)
    → ((j : ℕ) → Q j → P j)
    → Frees r s Q
Frees-iff f to from = record {
  total = f.total;
  bytes = f.bytes;
  sound = λ j e. elim (f.sound j e) [ inl a ↦ inl a | inr b ↦ inr (to j b) ];
  kept = f.kept;
  complete = λ j lt b. f.complete j lt (from j b);
}

-- A step that returns, and frees just the pages of `P`.
abbrev pub Releases : Outcome Release → Release → (ℕ → Type 0) → Type 0
Releases o r P = (r' : Release) × (o ≡ ok r') × Frees r r' P

Releases-bind :
    {o : Outcome Release} {r : Release} {P Q R : ℕ → Type 0} (next : Release → Outcome Release)
    → Releases o r P
    → ((s : Release) → IsBytes s.pmm.bitmap → Releases (next s) s Q)
    → ((j : ℕ) → P j ⊎ Q j → R j)
    → ((j : ℕ) → R j → P j ⊎ Q j)
    → Releases (o >>= next) r R
Releases-bind next (s, e, f) rest to from =
    let (t, e', g) = rest s f.bytes in (t, rw e e', Frees-iff (Frees-append f g) to from)

module _ (e : MemmapEntry) where
  Visited-self :
      (k j : ℕ) → Visited e k (k + 1) j → (lowmem_limit ≤ page_phys e k) × (j ≡ page_of e k)
  Visited-self k j (k', lo, hi, above, eq) =
      let same : k' ≡ k = omega arith in (rw same at above, rw same at eq)

  Visited-join :
      (lo mid hi j : ℕ)
      → lo ≤ mid
      → mid ≤ hi
      → Visited e lo mid j ⊎ Visited e mid hi j
      → Visited e lo hi j
  Visited-join lo mid hi j a b (inl (k, l, h, v, w)) = (k, l, omega arith, v, w)
  Visited-join lo mid hi j a b (inr (k, l, h, v, w)) = (k, omega arith, h, v, w)

  Visited-split : (lo mid hi j : ℕ) → Visited e lo hi j → Visited e lo mid j ⊎ Visited e mid hi j
  Visited-split lo mid hi j (k, l, h, v, w) = elim (Bool-cases (ltb k mid)) [
    | inl lt ↦ inl (k, l, ground arith, v, w)
    | inr ge ↦ inr (k, ground arith, h, v, w)
  ]

  -- A round that frees no page, because the page is out of range or below the limit.
  Frees-skip :
      (r r' : Release) (k : ℕ)
      → IsBytes r.pmm.bitmap
      → r'.pmm ≡ r.pmm
      → (page_of e k < r.pmm.total_pages → ¬ (lowmem_limit ≤ page_phys e k))
      → Frees r r' (Visited e k (k + 1))
  Frees-skip r r' k h same out = record {
    total = ap (λ (p : Pmm). p.total_pages) same;
    bytes = rw same h;
    sound = λ j f. inl (rw (← same) f);
    kept = λ j f. rw same f;
    complete = λ j lt v. let (above, eq) = Visited-self k j v in absurd (out (rw eq at lt) above);
  }

  Frees-clear :
      (r : Release) (k : ℕ)
      → IsBytes r.pmm.bitmap
      → lowmem_limit ≤ page_phys e k
      → Frees r
          (record r { pmm = record (r.pmm) { bitmap = bitmap_clear r.pmm.bitmap (page_of e k) } })
          (Visited e k (k + 1))
  Frees-clear r k h above = record {
    total = refl;
    bytes = bitmap_clear-IsBytes r.pmm.bitmap (page_of e k) h;
    sound = λ j f. elim (Bool-cases (j == page_of e k)) [
      | inl hit ↦ inr (k, omega arith, omega arith, above, (==_iff j (page_of e k)).0 hit)
      | inr miss ↦ inl (ground (arith, bitmap_test-clear r.pmm.bitmap (page_of e k) j h))
    ];
    kept = λ j f. ground (arith, bitmap_test-clear r.pmm.bitmap (page_of e k) j h);
    complete = λ j lt v.
        ground (arith, bitmap_test-clear r.pmm.bitmap (page_of e k) j h, Visited-self k j v);
  }

  release_page-Releases :
      (r : Release) (k : ℕ)
      → IsBytes r.pmm.bitmap
      → Releases (release_page r e k) r (Visited e k (k + 1))
  unfolding release_page pmm_mark_free
  release_page-Releases r k h = elim (Bool-cases (leb r.pmm.total_pages (page_of e k))) [
    | inl out ↦ (
      record r { lost = add64 r.lost 1 },
      rw out,
      Frees-skip r _ k h refl (λ lt. absurd (ground arith)),
    )
    | inr in_range ↦ elim (Bool-cases (ltb (page_phys e k) lowmem_limit)) [
      | inl low ↦ (
        record r { dont_touch = add64 r.dont_touch 1 },
        rw (in_range, low),
        Frees-skip r _ k h refl (λ lt above. ground arith),
      )
      | inr above ↦ (
        record r { pmm = record (r.pmm) { bitmap = bitmap_clear r.pmm.bitmap (page_of e k) } },
        rw (in_range, above),
        Frees-clear r k h (ground arith),
      )
    ]
  ]

  release_pages-Releases :
      (rounds k : ℕ) (r : Release)
      → IsBytes r.pmm.bitmap
      → Releases (release_pages e rounds k r) r (Visited e k (k + rounds))
  unfolding release_pages
  release_pages-Releases zero k r h =
      (r, refl, Frees-iff (Frees-none r h) (λ j b. absurd b) (λ j v. omega arith))
  release_pages-Releases (suc rounds) k r h =
      Releases-bind (release_pages e rounds (k + 1)) (release_page-Releases r k h)
        (release_pages-Releases rounds (k + 1))
        (λ j v.
          Visited-join k (k + 1) (k + suc rounds) j (omega arith) (omega arith) (rw assoc at v))
        (λ j v. rw assoc (Visited-split k (k + 1) (k + suc rounds) j v))
    where
      assoc : k + 1 + rounds ≡ k + suc rounds
      assoc = omega arith

pub release_entries-Releases :
    (es : List MemmapEntry) (r : Release)
    → IsBytes r.pmm.bitmap
    → Releases (release_entries es r) r (InUsable es)
unfolding release_entries
release_entries-Releases [] r h = (r, refl, Frees-none r h)
release_entries-Releases (e ∷ es) r h =
    Releases-bind {P = λ j. (is_usable e ≡ true) × Visited e 0 (rounds_of e.length) j}
      (release_entries es) (head (is_usable e) refl) (release_entries-Releases es) (λ j v. v)
      (λ j v. v)
  where
    head :
        (u : Bool)
        → is_usable e ≡ u
        → Releases
            (if u then release_pages e (rounds_of e.length) 0 r else ok r)
            r
            (λ j. (is_usable e ≡ true) × Visited e 0 (rounds_of e.length) j)
    head true eq =
        let (r', ran, f) = release_pages-Releases e (rounds_of e.length) 0 r h in
        (r', ran, Frees-iff f (λ j v. (eq, rw zero-add at v)) (λ j v. rw zero-add (v.1)))
    head false eq = (r, refl, Frees-iff (Frees-none r h) (λ j b. absurd b) (λ j v. cc))
