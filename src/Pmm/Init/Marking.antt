-- ===== src/Pmm/Init/Marking.antt =====
-- The loop of `pmm_init_from_memmap` of kernel/pmm.c that takes the pages of the bitmap.
use la_os.Common.{
  ℕ, zero, suc, ◌+◌, ◌≤◌, ◌<◌, ◌≡◌, inl, inr, refl, sym, subst, false, ◌||◌, ◌==◌, if◌then◌else◌,
  Bool-cases, ==_iff, Outcome, ok, returned, arith, add64,
}
use la_os.Pmm.{Pmm, pmm_mark_used}
use la_os.Pmm.Bitmap.{IsBytes, bitmap_set, bitmap_test, bitmap_test-set, bitmap_set-IsBytes}
use la_os.Pmm.Init.{mark_self}

-- Page `j` is one of the `count` pages from `start`.
abbrev pub InRun : (start lo hi j : ℕ) → Type 0
InRun start lo hi j = (k : ℕ) × (lo ≤ k) × (k < hi) × (j ≡ add64 start k)

-- Between `p` and `p'` just the pages of `InRun start lo hi` have been taken into use.
pub record Marks (p p' : Pmm) (start lo hi : ℕ) : Type 0 where
  pub total : p'.total_pages ≡ p.total_pages
  pub bytes : IsBytes p'.bitmap
  pub sound :
      (j : ℕ)
      → bitmap_test p'.bitmap j ≡ false
      → (bitmap_test p.bitmap j ≡ false) × ¬ InRun start lo hi j
  pub complete :
      (j : ℕ)
      → bitmap_test p.bitmap j ≡ false
      → ¬ InRun start lo hi j
      → bitmap_test p'.bitmap j ≡ false

mark_page : Pmm → ℕ → Outcome Pmm
mark_page p idx = if bitmap_test p.bitmap idx then ok p else pmm_mark_used p idx

-- One round of the loop over the bitmap's own pages.
pub record Marked (p p' : Pmm) (idx : ℕ) : Type 0 where
  pub total : p'.total_pages ≡ p.total_pages
  pub bytes : IsBytes p'.bitmap
  pub bits : (j : ℕ) → bitmap_test p'.bitmap j ≡ ((idx == j) || bitmap_test p.bitmap j)

mark_page-Marked :
    (p p' : Pmm) (idx : ℕ) → IsBytes p.bitmap → mark_page p idx ≡ ok p' → Marked p p' idx
unfolding mark_page pmm_mark_used
mark_page-Marked p p' idx h e = elim (Bool-cases (bitmap_test p.bitmap idx)) [
  | inl used ↦
      let same : p ≡ p' = ground arith in
      subst (λ x. Marked p x idx) same
        (record { total = refl; bytes = h; bits = λ j. ground arith })
  | inr free ↦
      let same : record p { bitmap = bitmap_set p.bitmap idx } ≡ p' = ground arith in
      subst (λ x. Marked p x idx) same
        (record {
          total = refl;
          bytes = bitmap_set-IsBytes p.bitmap idx h;
          bits = λ j. bitmap_test-set p.bitmap idx j h;
        })
]

module _ (start : ℕ) where
  Marks-refl : (p : Pmm) (j : ℕ) → IsBytes p.bitmap → Marks p p start j (j + 0)
  Marks-refl p j h = record {
    total = refl;
    bytes = h;
    sound = λ i f. (f, λ (k, l, m, e). omega arith);
    complete = λ i f out. f;
  }

  Marks-suc :
      {p q p' : Pmm} (rounds j : ℕ)
      → Marked p q (add64 start j)
      → Marks q p' start (j + 1) (j + 1 + rounds)
      → Marks p p' start j (j + suc rounds)
  Marks-suc {p} {q} {p'} rounds j one more = record {
    total = omega (arith, one.total, more.total);
    bytes = more.bytes;
    sound = λ i f. let (g, out) = more.sound i f in (ground (arith, one.bits i), apart i g out);
    complete = λ i f out.
        more.complete i (ground (arith, one.bits i, differ i out))
          (λ (k, l, m, e). out (k, omega arith, omega arith, e));
  }
    where
      differ : (i : ℕ) → ¬ InRun start j (j + suc rounds) i → (add64 start j == i) ≡ false
      differ i out = elim (Bool-cases (add64 start j == i)) [
        | inl hit ↦
            absurd (out (j, omega arith, omega arith, sym ((==_iff (add64 start j) i).0 hit)))
        | inr miss ↦ miss
      ]

      apart :
          (i : ℕ)
          → bitmap_test q.bitmap i ≡ false
          → ¬ InRun start (j + 1) (j + 1 + rounds) i
          → ¬ InRun start j (j + suc rounds) i
      apart i g out (k, l, m, e) = elim (Bool-cases (k == j)) [
        | inl here ↦
            let same : k ≡ j = (==_iff k j).0 here in ground (arith, one.bits i, rw same at e)
        | inr later ↦ out (k, ground arith, omega arith, e)
      ]

pub mark_self-Marks :
    (p p' : Pmm) (start rounds j : ℕ)
    → IsBytes p.bitmap
    → mark_self p start rounds j ≡ ok p'
    → Marks p p' start j (j + rounds)
unfolding mark_self mark_page
mark_self-Marks p p' start zero j h e =
    let same : p ≡ p' = cc in subst (λ x. Marks p x start j (j + 0)) same (Marks-refl start p j h)
mark_self-Marks p p' start (suc rounds) j h e =
    let (q, e₁, e₂) = returned (mark_page p (add64 start j)) _ e in
    let one = mark_page-Marked p q (add64 start j) h e₁ in
    Marks-suc start rounds j one (mark_self-Marks q p' start rounds (j + 1) one.bytes e₂)
