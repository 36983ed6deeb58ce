-- ===== src/Vmm/Map.antt =====
-- `__vmm_map` of kernel/vmm.c.
use la_os.Common.{
  ℕ, ◌+◌, ◌*◌, ◌/◌, ◌%◌, ◌^◌, ◌<◌, ◌≡◌, ◌≢◌, refl, sym, ap, subst, ◌∙◌, Bool, true, false, not,
  ◌&&◌, none, some, ◌∷◌, [], arith, if-both, if-true, split_and, page_size, align_down, Outcome, ok,
  panic,
}
use la_os.Vmm.{
  Entry, Memory, Vmm, Descent, is_present, high_part, page_of, pte_present, write, descend,
  map_leaf, map_page, enter, enter_pdpt, pml4_idx, pdpt_idx, pd_idx, pt_idx, vmm_get_phys,
  vmm_is_mapped,
}
use la_os.Vmm.View.{Mapping, index, view}
use la_os.Vmm.Tree.{IsRoute, route-view}
use la_os.Vmm.Enter.{IsValid, SameView, IsEntered, failed, entered}
use la_os.Vmm.Block.{enter-IsEntered, enter_pdpt-IsEntered, not-true}
use la_os.Vmm.Write.{written-IsTree, written-view, written-other}
use la_os.Vmm.Lookup.{
  SameAt, view-SameAt, page_number, get_phys-view, is_mapped-view, or_zero, bits_of, entry_bits,
  is_some,
}

-- The outcome of a call that maps the page `p`, for the translation before it.
pub data IsResult (root p : ℕ) (to : Mapping) (overwrite_ok : Bool) (mem : Memory)
    : Outcome (Bool × Vmm) → Type 0 where
  mapped :
      {v' : Vmm}
      → IsValid v' root
      → view 3 v'.mem root p ≡ some to
      → ((q : ℕ) → q < 2 ^ 36 → q ≢ p → view 3 v'.mem root q ≡ view 3 mem root q)
      → IsResult root p to overwrite_ok mem (ok (true, v'))
  out_of_pages :
      {v' : Vmm}
      → IsValid v' root
      → SameView root mem v'.mem
      → IsResult root p to overwrite_ok mem (ok (false, v'))
  already :
      overwrite_ok ≡ false
      → is_some (view 3 mem root p) ≡ true
      → IsResult root p to overwrite_ok mem panic

descend-IsResult :
    (root p : ℕ) (to : Mapping) (n : ℕ) (overwrite_ok : Bool) (mem : Memory) (v : Vmm) (d : Descent)
    (rest : ℕ → Vmm → Outcome (Bool × Vmm))
    → SameView root mem v.mem
    → IsEntered root p n v d
    → ((c : ℕ) (v' : Vmm)
        → IsValid v' root
        → SameView root mem v'.mem
        → IsRoute v'.mem root p n c
        → IsResult root p to overwrite_ok mem (rest c v'))
    → IsResult root p to overwrite_ok mem (descend d rest)
descend-IsResult root p to n overwrite_ok mem v d rest so_far (failed valid same) next =
    out_of_pages valid (λ q in_range. same q in_range ∙ so_far q in_range)
descend-IsResult root p to n overwrite_ok mem v d rest so_far (entered valid same r) next =
    next _ _ valid (λ q in_range. same q in_range ∙ so_far q in_range) r

abbrev leaf : (paddr : ℕ) → (flags : ℕ → Bool) → Entry
leaf paddr flags = record { frame = paddr / page_size % 2 ^ 40; bit = flags }

map_leaf-IsResult :
    (root p vaddr paddr pt : ℕ) (flags : ℕ → Bool) (overwrite_ok : Bool) (mem : Memory) (v : Vmm)
    → pt_idx vaddr ≡ index 0 p
    → p < 2 ^ 36
    → flags pte_present ≡ true
    → IsValid v root
    → SameView root mem v.mem
    → IsRoute v.mem root p 0 pt
    → IsResult root p
        (page_of (leaf paddr flags), flags)
        overwrite_ok
        mem
        (map_leaf vaddr paddr flags overwrite_ok pt v)
unfolding view
map_leaf-IsResult root p vaddr paddr pt flags overwrite_ok mem v slot bound on valid so_far r =
    let e = leaf paddr flags in
    if-both (IsResult root p (page_of e, flags) overwrite_ok mem)
      (is_present (v.mem pt (pt_idx vaddr)) && not overwrite_ok) panic _
      (λ taken.
        let (there, refused) =
          split_and (is_present (v.mem pt (pt_idx vaddr))) (not overwrite_ok) taken in
        already (not-true refused) (
          ap is_some (
            sym (so_far p bound)
            ∙ route-view valid.places v.mem root valid.tree p 0 pt bound r
            ∙ if-true (is_present (v.mem pt (index 0 p))) _ none
                (subst (λ i. is_present (v.mem pt i) ≡ true) slot there))))
      (λ free.
        subst
          (λ i.
            IsResult root p (page_of e, flags) overwrite_ok mem
              (ok (true, record v { mem = write v.mem pt i e; flushed = vaddr ∷ v.flushed })))
          (sym slot)
          (mapped
            (record {
              places = valid.places;
              tree = written-IsTree v root p pt valid bound r e;
              fresh = valid.fresh;
            })
            (written-view v root p pt valid bound r e
              ∙ if-true (flags pte_present) (some (page_of e, flags)) none on)
            (λ q in_range other.
              written-other v root p pt valid bound r e q in_range other ∙ so_far q in_range)))

-- The calls of `__vmm_map` in terms of the page's number.
map_at :
    Vmm
    → (root p vaddr paddr : ℕ) → (flags : ℕ → Bool) → (overwrite_ok : Bool) → Outcome (Bool × Vmm)
map_at v root p vaddr paddr flags overwrite_ok =
    descend (enter_pdpt v root (index 3 p) flags) (λ pdpt v3.
      descend (enter 512 [] v3 pdpt (index 2 p) flags) (λ pd v2.
        descend (enter 1 (vaddr ∷ []) v2 pd (index 1 p) flags)
          (λ pt v1. map_leaf vaddr paddr flags overwrite_ok pt v1)))

map_at-IsResult :
    (v : Vmm) (root p vaddr paddr : ℕ) (flags : ℕ → Bool) (overwrite_ok : Bool)
    → pt_idx vaddr ≡ index 0 p
    → p < 2 ^ 36
    → flags pte_present ≡ true
    → IsValid v root
    → IsResult root p
        (page_of (leaf paddr flags), flags)
        overwrite_ok
        v.mem
        (map_at v root p vaddr paddr flags overwrite_ok)
unfolding map_at
map_at-IsResult v root p vaddr paddr flags overwrite_ok slot bound on valid =
    let step =
      λ (n : ℕ). descend-IsResult root p (page_of (leaf paddr flags), flags) n overwrite_ok v.mem in
    step 2 v _ _ (λ q in_range. refl) (enter_pdpt-IsEntered root p bound flags v valid)
      (λ pdpt v3 valid3 same3 r3.
        step 1 v3 _ _ same3 (enter-IsEntered root p 1 bound pdpt flags [] v3 valid3 refl r3)
          (λ pd v2 valid2 same2 r2.
            step 0 v2 _ _ same2
              (enter-IsEntered root p 0 bound pd flags (vaddr ∷ []) v2 valid2 refl r2)
              (λ pt v1 valid1 same1 r1.
                map_leaf-IsResult root p vaddr paddr pt flags overwrite_ok v.mem v1 slot bound on
                  valid1 same1 r1)))

map_page-map_at :
    (v : Vmm) (root vaddr paddr : ℕ) (flags : ℕ → Bool) (overwrite_ok : Bool)
    → map_page v root vaddr paddr flags overwrite_ok
      ≡ map_at v root (page_number vaddr) (align_down vaddr page_size) paddr flags overwrite_ok
unfolding map_page map_at
map_page-map_at v root vaddr paddr flags overwrite_ok =
    let p = page_number vaddr in
    let page = align_down vaddr page_size in
    let i4 : pml4_idx page ≡ index 3 p = omega arith in
    let i3 : pdpt_idx page ≡ index 2 p = omega arith in
    let i2 : pd_idx page ≡ index 1 p = omega arith in
    let call = λ (i4 i3 i2 : ℕ). descend (enter_pdpt v root i4 flags) (λ pdpt v3.
      descend (enter 512 [] v3 pdpt i3 flags) (λ pd v2.
        descend (enter 1 (page ∷ []) v2 pd i2 flags)
          (λ pt v1. map_leaf page paddr flags overwrite_ok pt v1))) in
    ap (λ i. call i (pdpt_idx page) (pd_idx page)) i4
    ∙ ap (λ i. call (index 3 p) i (pd_idx page)) i3
    ∙ ap (λ i. call (index 3 p) (index 2 p) i) i2

-- What a call does to the look-ups at the starts of pages.
pub data IsMapResult (v : Vmm) (root vaddr paddr : ℕ) (flags : ℕ → Bool) (overwrite_ok : Bool)
    : Outcome (Bool × Vmm) → Type 0 where
  -- The page is mapped by an entry with the flags, and every other one is as it was.
  done :
      {v' : Vmm}
      → IsValid v' root
      → vmm_is_mapped v'.mem root (align_down vaddr page_size) ≡ true
      → vmm_get_phys v'.mem root (align_down vaddr page_size)
        ≡ paddr / page_size % 2 ^ 40 * page_size + high_part flags
      → entry_bits v'.mem root (align_down vaddr page_size) ≡ some flags
      → ((w : ℕ)
          → w % page_size ≡ 0
          → page_number w ≢ page_number vaddr
          → SameAt root v.mem v'.mem w)
      → IsMapResult v root vaddr paddr flags overwrite_ok (ok (true, v'))
  -- No page for a table is left, and every page is as it was.
  no_table :
      {v' : Vmm}
      → IsValid v' root
      → ((w : ℕ) → w % page_size ≡ 0 → SameAt root v.mem v'.mem w)
      → IsMapResult v root vaddr paddr flags overwrite_ok (ok (false, v'))
  -- The page has been mapped before, which is refused.
  refused :
      overwrite_ok ≡ false
      → vmm_is_mapped v.mem root (align_down vaddr page_size) ≡ true
      → IsMapResult v root vaddr paddr flags overwrite_ok panic

module _ (v : Vmm) (root vaddr paddr : ℕ) (flags : ℕ → Bool) (overwrite_ok : Bool) where
  at_page : page_number (align_down vaddr page_size) ≡ page_number vaddr
  at_page = omega arith

  result-IsMapResult :
      (o : Outcome (Bool × Vmm))
      → IsResult root (page_number vaddr) (page_of (leaf paddr flags), flags) overwrite_ok v.mem o
      → IsMapResult v root vaddr paddr flags overwrite_ok o
  result-IsMapResult o (mapped {v' = v'} valid here others) =
      let here' =
        subst (λ p. view 3 v'.mem root p ≡ some (page_of (leaf paddr flags), flags)) (sym at_page)
          here in
      done valid (is_mapped-view v'.mem root _ (omega arith) ∙ ap is_some here')
        (get_phys-view v'.mem root _ (omega arith) ∙ ap or_zero here') (ap bits_of here')
        (λ w aligned other.
          view-SameAt root v.mem v'.mem w aligned (others (page_number w) (omega arith) other))
  result-IsMapResult o (out_of_pages {v' = v'} valid same) =
      no_table valid
        (λ w aligned. view-SameAt root v.mem v'.mem w aligned (same (page_number w) (omega arith)))
  result-IsMapResult o (already not_ok there) = refused not_ok (
      is_mapped-view v.mem root _ (omega arith)
      ∙ subst (λ p. is_some (view 3 v.mem root p) ≡ true) (sym at_page) there)

  -- Where the tables are a tree and the pages that `pmm_alloc` gives are not among them, a call
  -- with `PTE_PRESENT` among the flags does one of three things. It maps the page of `vaddr` to that
  -- of `paddr`, by an entry whose bits are the flags; or no page for a table is left; or it panics,
  -- and then the page was mapped and overwriting is not allowed. Where it returns the tables are
  -- still a tree, and every other page, or every page where it fails, is mapped as before: to the
  -- same address by an entry with the same bits, also where a block is split. The bits are those of
  -- the last entry on the way; those of the tables above it are not compared.
  pub map_page-IsMapResult :
      IsValid v root
      → flags pte_present ≡ true
      → IsMapResult v root vaddr paddr flags overwrite_ok
          (map_page v root vaddr paddr flags overwrite_ok)
  map_page-IsMapResult valid on =
      subst (IsMapResult v root vaddr paddr flags overwrite_ok)
        (sym (map_page-map_at v root vaddr paddr flags overwrite_ok))
        (result-IsMapResult _ (
          map_at-IsResult v root (page_number vaddr) (align_down vaddr page_size) paddr flags
            overwrite_ok (omega arith) (omega arith) on valid))
