-- ===== src/Vmm/Block.antt =====
-- The steps of `__vmm_map` of kernel/vmm.c that split a block of 2 MiB or 1 GiB.
use la_os.Common.{
  ℕ, zero, suc, ◌+◌, ◌*◌, ◌%◌, ◌^◌, ◌<◌, ◌≡◌, refl, sym, ap, subst, ◌∙◌, Bool, true, false, not,
  ◌&&◌, ◌||◌, ◌==◌, none, some, List, ◌++◌, arith, if◌then◌else◌, if-both, if-true, split_and, ◌/◌,
  page_size,
}
use la_os.Vmm.{
  Entry, Memory, Vmm, no_page, is_present, is_leaf, page_of, table_entry, grant, write, fill,
  next_page, later_pages, follow, enter_absent, enter_present, enter_block, enter_pdpt, enter,
}
use la_os.Vmm.View.{
  index, span, has_blocks, is_block, block_address, view, through, through-block, write-here,
}
use la_os.Vmm.Tree.{IsRoute, start, route-IsAt, index-range}
use la_os.Vmm.Enter.{
  IsValid, IsEntered, next-IsNewPage, new-IsEntered, enter_present-IsEntered,
  enter_absent-IsEntered, out_of_pages,
}

-- The entry `j` of the table that takes the place of a block.
abbrev part : (n : ℕ) → Entry → (j : ℕ) → Entry
part n block j = record block { frame = block.frame + j * span n }

split_leaf : (n : ℕ) (e : Entry) → is_block n e ≡ true → (has_blocks n ≡ true) × (is_leaf e ≡ true)
split_leaf n e on = split_and (has_blocks n) (is_leaf e) on

pub not-true : {b : Bool} → not b ≡ true → b ≡ false
not-true {b = true} e = cc
not-true {b = false} e = refl

pub not-false : {b : Bool} → not b ≡ false → b ≡ true
not-false {b = true} e = refl
not-false {b = false} e = cc

leaf-present : (e : Entry) → is_leaf e ≡ true → is_present e ≡ true
leaf-present e on = (split_and (is_present e) (e.bit 7) on).0

-- Each part is a block, or the page itself at the last level.
part-aligned :
    (n : ℕ) (block : Entry) (j : ℕ)
    → is_block (suc n) block ≡ true
    → block.frame % span (suc n) ≡ 0
    → (part n block j).frame % span n ≡ 0
part-aligned zero block j on aligned = omega arith
part-aligned (suc zero) block j on aligned = omega (arith, aligned)
part-aligned (suc (suc n)) block j on aligned = cc

part-is_block :
    (n l : ℕ) (block : Entry) (j : ℕ)
    → n ≡ suc l
    → is_block (suc n) block ≡ true
    → is_block n (part n block j) ≡ true
part-is_block zero l block j level on = absurd (omega (arith, level))
part-is_block (suc zero) l block j level on = on
part-is_block (suc (suc n)) l block j level on = cc

-- The parts together translate what the block did.
parts-view :
    (n : ℕ) (block : Entry) (mem' : Memory) (m q : ℕ)
    → is_block (suc n) block ≡ true
    → block.frame % span (suc n) ≡ 0
    → ((j : ℕ) → mem' m j ≡ part n block j)
    → view n mem' m q ≡ some (block_address (suc n) block q, block.bit)
unfolding view
parts-view zero block mem' m q on aligned parts =
    ap (λ e. if is_present e then some (page_of e, e.bit) else none) (parts (index 0 q))
    ∙ if-true (is_present block) (some (page_of (part 0 block (index 0 q)), block.bit)) none
        (leaf-present block (split_leaf 1 block on).1)
    ∙ ap (λ a. some (a, block.bit)) (omega (arith, aligned))
parts-view (suc zero) block mem' m q on aligned parts =
    ap (λ e. through 1 e q (view 0 mem' (page_of e) q)) (parts (index 1 q))
    ∙ through-block 1 (part 1 block (index 1 q)) q _ (leaf-present block (split_leaf 2 block on).1)
        on
    ∙ ap (λ a. some (a, block.bit)) (omega (arith, aligned))
parts-view (suc (suc n)) block mem' m q on aligned parts = cc

block-view :
    (n : ℕ) (mem : Memory) (t q : ℕ) (block : Entry)
    → mem t (index (suc n) q) ≡ block
    → is_block (suc n) block ≡ true
    → view (suc n) mem t q ≡ some (block_address (suc n) block q, block.bit)
unfolding view
block-view n mem t q block here on =
    ap (λ e. through (suc n) e q (view n mem (page_of e) q)) here
    ∙ through-block (suc n) block q _ (leaf-present block (split_leaf (suc n) block on).1) on

write-same : (mem : Memory) (t i : ℕ) (e : Entry) → e ≡ mem t i → write mem t i e ≡ mem
write-same mem t i e eq = λ k u j.
    if-both (λ x. x ≡ mem u j) (u == t && (j == i)) e (mem u j)
      (λ on.
        let (f, g) = split_and (u == t) (j == i) on in
        eq ∙ ap (λ w. mem w i) (sym (ground (arith, f))) ∙ ap (mem u) (sym (ground (arith, g))))
      (λ off. refl) k

or-again : (a b c : Bool) → (a || b || c || b || c) ≡ (a || b || c)
or-again true b c = refl
or-again false true c = refl
or-again false false true = refl
or-again false false false = refl

grant-table_entry :
    (m : ℕ) (flags : ℕ → Bool) → grant (table_entry m flags) flags ≡ table_entry m flags
grant-table_entry m flags = λ k. record {
  frame = m / page_size % 2 ^ 40;
  bit = λ b. or-again (b == 0) (b == 1) (b == 2 && flags 2) k;
}

module _ (root p n : ℕ) (bound : p < 2 ^ 36) (t : ℕ) (flags : ℕ → Bool) where
  abbrev slot : ℕ
  slot = index (suc n) p

  -- A new entry has what it is granted already.
  regrant :
      (v : Vmm) (m : ℕ)
      → v.mem t slot ≡ table_entry m flags
      → follow v t slot ≡ enter_present v t slot flags
  regrant v m eq =
      ap (λ mem. follow (record v { mem = mem }) t slot)
        (sym (
          write-same v.mem t slot (grant (v.mem t slot) flags)
            (ap (λ e. grant e flags) eq ∙ grant-table_entry m flags ∙ sym eq)))

  enter_block-IsEntered :
      (flushes : List ℕ) (v : Vmm) (valid : IsValid v root)
      → IsRoute v.mem root p (suc n) t
      → is_block (suc n) (v.mem t slot) ≡ true
      → IsEntered root p n v (enter_block (span n) flushes v t slot flags)
  enter_block-IsEntered flushes v valid r on =
      let block = v.mem t slot in
      let on_leaf = leaf-present block (split_leaf (suc n) block on).1 in
      let place = route-IsAt valid.places v.mem root valid.tree p (suc n) t bound r in
      let aligned = valid.tree.aligned n _ t slot place (index-range (suc n) p) on_leaf on in
      if-both (IsEntered root p n v) (next_page v.supply == 0)
        (no_page (record v { supply = later_pages v.supply })) _
        (λ z.
          out_of_pages root p n bound t flags v (record v { supply = later_pages v.supply }) valid
            refl refl)
        (λ given.
          let v' = record v {
            supply = later_pages v.supply;
            flushed = flushes ++ v.flushed;
            mem =
                write (fill v.mem (next_page v.supply) (part n block)) t slot
                  (table_entry (next_page v.supply) flags);
          } in
          subst (IsEntered root p n v)
            (regrant v' (next_page v.supply)
              (write-here (fill v.mem (next_page v.supply) (part n block)) t slot _))
            (new-IsEntered root p n bound t flags v (flushes ++ v.flushed) (part n block) valid r
              (next-IsNewPage valid.places v.supply valid.fresh given)
              (λ l j level present.
                (part-is_block n l block j level on, part-aligned n block j on aligned))
              (λ mem' q parts at_slot.
                parts-view n block mem' (next_page v.supply) q on aligned parts
                ∙ sym (block-view n v.mem t q block (ap (λ j. v.mem t j) at_slot) on))))

  -- From a table whose entries can be blocks.
  pub enter-IsEntered :
      (flushes : List ℕ) (v : Vmm) (valid : IsValid v root)
      → has_blocks (suc n) ≡ true
      → IsRoute v.mem root p (suc n) t
      → IsEntered root p n v (enter (span n) flushes v t slot flags)
  enter-IsEntered flushes v valid may r =
      if-both (IsEntered root p n v) (not (is_present (v.mem t slot))) (enter_absent v t slot flags)
        _ (λ off. enter_absent-IsEntered root p n bound t flags v valid r (not-true off))
        (λ on.
          if-both (IsEntered root p n v) (is_leaf (v.mem t slot))
            (enter_block (span n) flushes v t slot flags) _
            (λ leaf.
              enter_block-IsEntered flushes v valid r
                (ap (λ b. b && is_leaf (v.mem t slot)) may ∙ leaf))
            (λ table.
              enter_present-IsEntered root p n bound t flags v valid r (not-false on)
                (ap (λ b. b && is_leaf (v.mem t slot)) may ∙ table)))

-- From the root, whose entries are no blocks.
pub enter_pdpt-IsEntered :
    (root p : ℕ) (bound : p < 2 ^ 36) (flags : ℕ → Bool) (v : Vmm) (valid : IsValid v root)
    → IsEntered root p 2 v (enter_pdpt v root (index 3 p) flags)
enter_pdpt-IsEntered root p bound flags v valid =
    if-both (IsEntered root p 2 v) (not (is_present (v.mem root (index 3 p))))
      (enter_absent v root (index 3 p) flags) _
      (λ off. enter_absent-IsEntered root p 2 bound root flags v valid start (not-true off))
      (λ on. enter_present-IsEntered root p 2 bound root flags v valid start (not-false on) refl)
