-- ===== src/Vmm/Tree/Change.antt =====
-- A change of one entry of the page tables of kernel/vmm.c, and of pages that are no tables.
use la_os.Common.{
  ℕ, zero, suc, ◌^◌, ◌≤◌, ◌<◌, ◌≡◌, ◌≢◌, sym, ap, subst, ◌∙◌, Bool, true, false, ◌&&◌, ◌==◌, none,
  some, arith, Bool-cases, inl, inr, if◌then◌else◌, split_and,
}
use la_os.Vmm.{Memory, is_present, table_of, page_of}
use la_os.Vmm.View.{above, index, is_block, view, through, through-same}
use la_os.Vmm.Tree.{
  Places, IsAt, IsTree, IsRoute, start, down, child-IsAt, child-page_of, route-IsAt,
}

pub and-differ : (a b : Bool) → (a && b) ≡ false → a ≡ true → b ≡ true → ⊥
and-differ true b off on on' = cc
and-differ false b off on on' = cc

module _ (s : Places) (mem : Memory) (root : ℕ) (tree : IsTree s mem root) (mem' : Memory)
    (n0 a0 t0 i0 : ℕ) (place : IsAt s n0 a0 t0)
    (same : (u j : ℕ) → s.used u ≡ true → (u ≡ t0 → j ≢ i0) → mem' u j ≡ mem u j) where
  -- A page on whose way the entry lies has the digits of its place.
  digits : (n t p : ℕ) → IsAt s n (above (suc n) p) t → t ≡ t0 → (n ≡ n0) × (above (suc n) p ≡ a0)
  digits n t p here e = (
    sym here.has_level ∙ ap s.level e ∙ place.has_level,
    sym here.has_prefix ∙ ap s.prefix e ∙ place.has_prefix,
  )

  module _ (p : ℕ)
      (local : above (suc n0) p ≡ a0 → index n0 p ≡ i0 → view n0 mem' t0 p ≡ view n0 mem t0 p) where
    at_place :
        (n t : ℕ)
        → IsAt s n (above (suc n) p) t
        → t ≡ t0
        → index n p ≡ i0
        → view n mem' t p ≡ view n mem t p
    at_place n t here e i =
        let (level, prefix) = digits n t p here e in
        let at_level = λ (m : ℕ) (eq : n ≡ m). subst (λ m. index m p ≡ i0) eq i in
        let moved = local (subst (λ m. above (suc m) p ≡ a0) level prefix) (at_level n0 level) in
        subst (λ m. view m mem' t p ≡ view m mem t p) (sym level)
          (subst (λ u. view n0 mem' u p ≡ view n0 mem u p) (sym e) moved)

    off_zero :
        (t : ℕ)
        → IsAt s 0 (above 1 p) t
        → (t ≡ t0 → index 0 p ≢ i0)
        → view 0 mem' t p ≡ view 0 mem t p
    unfolding view
    off_zero t here off =
        ap (λ e. if is_present e then some (page_of e, e.bit) else none)
          (same t (index 0 p) here.in_use off)

    off_suc :
        (n t : ℕ)
        → IsAt s (suc n) (above (suc (suc n)) p) t
        → (is_present (mem t (index (suc n) p)) ≡ true
            → is_block (suc n) (mem t (index (suc n) p)) ≡ false
            → view n mem' (table_of (mem t (index (suc n) p))) p
              ≡ view n mem (table_of (mem t (index (suc n) p))) p)
        → (t ≡ t0 → index (suc n) p ≢ i0)
        → view (suc n) mem' t p ≡ view (suc n) mem t p
    unfolding view
    off_suc n t here below off =
        let e = mem t (index (suc n) p) in
        ap (λ e. through (suc n) e p (view n mem' (page_of e) p))
          (same t (index (suc n) p) here.in_use off)
        ∙ through-same (suc n) e p (view n mem' (page_of e) p) (view n mem (page_of e) p)
            (λ on table.
              let eq = child-page_of s mem root tree n p t here on table in
              ap (λ c. view n mem' c p) eq ∙ below on table ∙ sym (ap (λ c. view n mem c p) eq))

    place-split :
        (n t : ℕ)
        → IsAt s n (above (suc n) p) t
        → ((t ≡ t0 → index n p ≢ i0) → view n mem' t p ≡ view n mem t p)
        → view n mem' t p ≡ view n mem t p
    place-split n t here off = elim (Bool-cases (t == t0 && (index n p == i0))) [
      | inl on ↦
          let (e, i) = split_and (t == t0) (index n p == i0) on in
          at_place n t here (ground (arith, e)) (ground (arith, i))
      | inr away ↦ off (λ e i.
          and-differ (t == t0) (index n p == i0) away (ground (arith, e)) (ground (arith, i)))
    ]

    -- What translates the page the same way below the entry translates it the same way at all.
    pub same_view : (n t : ℕ) → IsAt s n (above (suc n) p) t → view n mem' t p ≡ view n mem t p
    same_view zero t here = place-split 0 t here (off_zero t here)
    same_view (suc n) t here = place-split (suc n) t here (
        off_suc n t here
          (λ on table. same_view n _ (child-IsAt s mem root tree n p t here on table)))

  level-differ : (n t : ℕ) {a : ℕ} → IsAt s (suc n) a t → t ≡ t0 → n0 ≤ n → ⊥
  level-differ n t here e le =
      let eq = sym here.has_level ∙ ap s.level e ∙ place.has_level in omega (arith, eq, le)

  pub route-kept :
      (p n t : ℕ) → p < 2 ^ 36 → n0 ≤ n → IsRoute mem root p n t → IsRoute mem' root p n t
  route-kept p n t bound le start = start
  route-kept p n t bound le (down {t = u} r on table) =
      let here = route-IsAt s mem root tree p (suc n) u bound r in
      let eq = same u (index (suc n) p) here.in_use (λ e i. level-differ n u here e le) in
      subst (λ e. IsRoute mem' root p n (table_of e)) eq
        (down (route-kept p (suc n) u bound (omega (arith, le)) r) (ap is_present eq ∙ on)
          (ap (is_block (suc n)) eq ∙ table))
