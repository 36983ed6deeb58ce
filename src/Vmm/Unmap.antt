-- ===== src/Vmm/Unmap.antt =====
-- `vmm_unmap` of kernel/vmm.c.
use la_os.Common.{
  ℕ, suc, ◌+◌, ◌%◌, ◌^◌, ◌<◌, ◌≡◌, ◌≢◌, refl, sym, ap, subst, ◌∙◌, Bool, true, false, not, Option,
  none, ◌∷◌, arith, if◌then◌else◌, if-both, page_size, align_down,
}
use la_os.Vmm.{
  Memory, Vmm, is_present, is_leaf, table_of, write, zero_entry, unmap_page, vmm_unmap, pml4_idx,
  pdpt_idx, pd_idx, pt_idx, vmm_is_mapped,
}
use la_os.Vmm.View.{Mapping, index, view}
use la_os.Vmm.Tree.{IsRoute, start, down, route-view}
use la_os.Vmm.Enter.{IsValid, absent-view}
use la_os.Vmm.Block.{not-true, not-false}
use la_os.Vmm.Write.{written-IsTree, written-view, written-other}
use la_os.Vmm.Lookup.{SameAt, view-SameAt, page_number, is_mapped-view, is_some}

-- What a call does to the look-ups at the starts of pages.
pub data IsUnmapResult (v : Vmm) (root vaddr : ℕ) : Bool × Vmm → Type 0 where
  -- The page is no longer mapped, every other one is as it was, and both this processor's buffer
  -- and the others' are flushed.
  cleared :
      {v' : Vmm}
      → IsValid v' root
      → vmm_is_mapped v'.mem root (align_down vaddr page_size) ≡ false
      → ((w : ℕ)
          → w % page_size ≡ 0
          → page_number w ≢ page_number vaddr
          → SameAt root v.mem v'.mem w)
      → v'.flushed ≡ align_down vaddr page_size ∷ v.flushed
      → v'.broadcasts ≡ v.broadcasts + 1
      → IsUnmapResult v root vaddr (true, v')
  -- The page has not been mapped, and nothing changes.
  absent :
      vmm_is_mapped v.mem root (align_down vaddr page_size) ≡ false
      → IsUnmapResult v root vaddr (false, v)

-- No block lies on the page's way.
abbrev pub NotInBlock : (mem : Memory) → (root p : ℕ) → Type 0
NotInBlock mem root p =
    let pdpt = table_of (mem root (index 3 p)) in
    let pd = table_of (mem pdpt (index 2 p)) in
    (is_leaf (mem pdpt (index 2 p)) ≡ false) × (is_leaf (mem pd (index 1 p)) ≡ false)

-- `vmm_unmap` in terms of the page's indices.
unmap_at : Vmm → (root page i4 i3 i2 i1 : ℕ) → Bool × Vmm
unmap_at v root page i4 i3 i2 i1 =
    let pdpt = table_of (v.mem root i4) in
    let pd = table_of (v.mem pdpt i3) in
    if not (is_present (v.mem root i4))
    then (false, v)
    else if not (is_present (v.mem pdpt i3))
    then (false, v)
    else if not (is_present (v.mem pd i2))
    then (false, v)
    else (
      true,
      record v {
        mem = write v.mem (table_of (v.mem pd i2)) i1 zero_entry;
        flushed = page ∷ v.flushed;
        broadcasts = v.broadcasts + 1;
      },
    )

-- The broadcast after a call of `__vmm_unmap`.
abbrev announce : Bool × Vmm → Bool × Vmm
announce r = (r.0, if r.0 then record r.1 { broadcasts = r.1.broadcasts + 1 } else r.1)

announce-chain :
    (b4 b3 b2 : Bool) (v w : Vmm)
    → announce (
        if not b4
        then (false, v)
        else if not b3
        then (false, v)
        else if not b2
        then (false, v)
        else (true, w))
      ≡ (if not b4
          then (false, v)
          else if not b3
          then (false, v)
          else if not b2
          then (false, v)
          else (true, record w { broadcasts = w.broadcasts + 1 }))
announce-chain false b3 b2 v w = refl
announce-chain true false b2 v w = refl
announce-chain true true false v w = refl
announce-chain true true true v w = refl

vmm_unmap-unmap_at :
    (v : Vmm) (root vaddr : ℕ)
    → vmm_unmap v root vaddr
      ≡ unmap_at v root
          (align_down vaddr page_size)
          (index 3 (page_number vaddr))
          (index 2 (page_number vaddr))
          (index 1 (page_number vaddr))
          (index 0 (page_number vaddr))
unfolding vmm_unmap unmap_page unmap_at
vmm_unmap-unmap_at v root vaddr =
    let p = page_number vaddr in
    let page = align_down vaddr page_size in
    let i4 : pml4_idx page ≡ index 3 p = omega arith in
    let i3 : pdpt_idx page ≡ index 2 p = omega arith in
    let i2 : pd_idx page ≡ index 1 p = omega arith in
    let i1 : pt_idx page ≡ index 0 p = omega arith in
    announce-chain (is_present (v.mem root (pml4_idx page)))
      (is_present (v.mem (table_of (v.mem root (pml4_idx page))) (pdpt_idx page)))
      (is_present (
        v.mem (table_of (v.mem (table_of (v.mem root (pml4_idx page))) (pdpt_idx page)))
          (pd_idx page)))
      v
      (record v {
        mem =
            write v.mem
              (table_of (
                v.mem (table_of (v.mem (table_of (v.mem root (pml4_idx page))) (pdpt_idx page)))
                  (pd_idx page)))
              (pt_idx page) zero_entry;
        flushed = page ∷ v.flushed;
      })
    ∙ ap (λ i. unmap_at v root page i (pdpt_idx page) (pd_idx page) (pt_idx page)) i4
    ∙ ap (λ i. unmap_at v root page (index 3 p) i (pd_idx page) (pt_idx page)) i3
    ∙ ap (λ i. unmap_at v root page (index 3 p) (index 2 p) i (pt_idx page)) i2
    ∙ ap (λ i. unmap_at v root page (index 3 p) (index 2 p) (index 1 p) i) i1

module _ (v : Vmm) (root vaddr : ℕ) (valid : IsValid v root) where
  abbrev p : ℕ
  p = page_number vaddr

  abbrev page : ℕ
  page = align_down vaddr page_size

  mapped_view :
      (mem : Memory) (r : Option Mapping)
      → view 3 mem root p ≡ r
      → vmm_is_mapped mem root page ≡ is_some r
  mapped_view mem r eq =
      let at_page : page_number page ≡ p = omega arith in
      is_mapped-view mem root page (omega arith)
      ∙ ap (λ q. is_some (view 3 mem root q)) at_page
      ∙ ap is_some eq

  absent-IsUnmapResult :
      (n t : ℕ)
      → IsRoute v.mem root p (suc n) t
      → not (is_present (v.mem t (index (suc n) p))) ≡ true
      → IsUnmapResult v root vaddr (false, v)
  absent-IsUnmapResult n t r off = absent (
      mapped_view v.mem none (
        route-view valid.places v.mem root valid.tree p (suc n) t (omega arith) r
        ∙ absent-view n v.mem t p (not-true off)))

  cleared-IsUnmapResult :
      (pt : ℕ)
      → IsRoute v.mem root p 0 pt
      → IsUnmapResult v root vaddr (
        true,
        record v {
          mem = write v.mem pt (index 0 p) zero_entry;
          flushed = page ∷ v.flushed;
          broadcasts = v.broadcasts + 1;
        },
      )
  cleared-IsUnmapResult pt r =
      let bound : p < 2 ^ 36 = omega arith in
      cleared
        (record {
          places = valid.places;
          tree = written-IsTree v root p pt valid bound r zero_entry;
          fresh = valid.fresh;
        })
        (mapped_view _ none (written-view v root p pt valid bound r zero_entry))
        (λ w aligned other.
          view-SameAt root v.mem _ w aligned (
            written-other v root p pt valid bound r zero_entry (page_number w) (omega arith) other))
        refl refl

  -- Where the tables are a tree and no block lies on the way to the page of `vaddr`, a call that
  -- succeeds unmaps the page, leaves every other page as it was, and flushes the page here and on
  -- the other processors; a call that fails has met a page that is not mapped, and changes nothing.
  pub vmm_unmap-IsUnmapResult :
      NotInBlock v.mem root (page_number vaddr)
      → IsUnmapResult v root vaddr (vmm_unmap v root vaddr)
  unfolding unmap_at
  vmm_unmap-IsUnmapResult no_block =
      let pdpt = table_of (v.mem root (index 3 p)) in
      let pd = table_of (v.mem pdpt (index 2 p)) in
      subst (IsUnmapResult v root vaddr) (sym (vmm_unmap-unmap_at v root vaddr)) (
        if-both (IsUnmapResult v root vaddr) (not (is_present (v.mem root (index 3 p)))) (false, v)
          _ (λ off. absent-IsUnmapResult 2 root start off)
          (λ on4.
            let r3 = down start (not-false on4) refl in
            if-both (IsUnmapResult v root vaddr) (not (is_present (v.mem pdpt (index 2 p))))
              (false, v) _ (λ off. absent-IsUnmapResult 1 pdpt r3 off)
              (λ on3.
                let r2 = down r3 (not-false on3) no_block.0 in
                if-both (IsUnmapResult v root vaddr) (not (is_present (v.mem pd (index 1 p))))
                  (false, v) _ (λ off. absent-IsUnmapResult 0 pd r2 off)
                  (λ on2. cleared-IsUnmapResult _ (down r2 (not-false on2) no_block.1)))))
