-- ===== src/Mmap/Orderly.antt =====
-- The state of a process that `do_mmap` of kernel/arch/x86_64/syscall.c relies on and keeps.
use la_os.Common.{
  ℕ, ◌+◌, ◌/◌, ◌%◌, ◌≤◌, ◌<◌, ◌≡◌, sym, ap, subst, ◌∙◌, true, ◌&&◌, ltb, leb, none, some, arith,
  if-true, if-false, Bool-cases, inl, inr, page_size,
}
use la_os.Vma.{Vma, vma_find, vma_alloc, user_mmap_base, user_mmap_end}
use la_os.Vma.Order.{Apart, Clear}
use la_os.Vma.Lookup.{vma_alloc-vma_find}
use la_os.Vma.FindFree.{EndBelow}
use la_os.Vma.Whole.{IsWhole, insert-IsWhole, insert-EndBelow}
use la_os.Mmap.{Process}
use la_os.Mmap.Round.{IsBalanced, IsRestored, IsMapped}

-- The regions are in order, of whole pages and in the mapping area; no page of the area is mapped
-- outside them; and each page that was given back had been given. Outside the area anything may be
-- mapped, as the segments and the stack of the program are.
pub record IsOrderly (s : Process) : Type 0 where
  pub apart : Apart user_mmap_base s.vmas
  pub below : EndBelow (user_mmap_end + 1) s.vmas
  pub whole : IsWhole s.vmas
  pub backed :
      (b : ℕ) → user_mmap_base ≤ b → b < user_mmap_end → vma_find s.vmas b ≡ none → s.pages b ≡ none
  pub balanced : IsBalanced s

-- A state with the memory of an orderly one is orderly.
pub restored-IsOrderly : (s s' : Process) → IsRestored s s' → IsOrderly s → IsOrderly s'
restored-IsOrderly s s' r o = record {
  apart = subst (Apart user_mmap_base) (sym r.vmas) o.apart;
  below = subst (EndBelow (user_mmap_end + 1)) (sym r.vmas) o.below;
  whole = subst IsWhole (sym r.vmas) o.whole;
  backed = λ b ge lt e. r.pages b ∙ o.backed b ge lt (ap (λ us. vma_find us b) (sym r.vmas) ∙ e);
  balanced = λ x.
      let balance = r.balance x in
      let tables = r.tables x in let out = o.balanced x in omega (arith, balance, tables, out);
}

none-some : (v : Vma) → some v ≡ none → ⊥
none-some v e = cc

-- A new region whose pages alone have been mapped leaves an orderly state.
pub mapped-IsOrderly :
    (s s1 s' : Process) (vaddr bytes prot flags : ℕ)
    → IsOrderly s
    → Clear vaddr (vaddr + bytes) s.vmas
    → Apart user_mmap_base (vma_alloc true s.vmas vaddr (vaddr + bytes) prot flags).1
    → vaddr + bytes ≤ user_mmap_end
    → (vaddr + bytes) % page_size ≡ 0
    → s1 ≡ (record s { vmas = (vma_alloc true s.vmas vaddr (vaddr + bytes) prot flags).1 })
    → IsMapped (bytes / page_size) vaddr s1 s'
    → IsOrderly s'
unfolding vma_alloc
mapped-IsOrderly s s1 s' vaddr bytes prot flags o clear apart area at_page eq m =
    let v : Vma = record { start = vaddr; end = vaddr + bytes; prot = prot; flags = flags } in
    let vmas = m.vmas ∙ ap (λ (x : Process). x.vmas) eq in
    record {
      apart = subst (Apart user_mmap_base) (sym vmas) apart;
      below =
          subst (EndBelow (user_mmap_end + 1)) (sym vmas)
            (insert-EndBelow (user_mmap_end + 1) v s.vmas (omega (arith, area)) o.below);
      whole = subst IsWhole (sym vmas) (insert-IsWhole v s.vmas at_page o.whole);
      backed = λ b ge lt e.
          let found =
            sym (vma_alloc-vma_find s.vmas vaddr (vaddr + bytes) prot flags b clear)
            ∙ ap (λ us. vma_find us b) (sym vmas)
            ∙ e in
          elim (Bool-cases (leb vaddr b && ltb b (vaddr + bytes))) [
            | inl inside ↦ absurd (
                none-some v (
                  sym (
                    if-true (leb vaddr b && ltb b (vaddr + bytes)) (some v) (vma_find s.vmas b)
                      inside)
                  ∙ found))
            | inr outside ↦
                m.outside b (λ k few at. ground (arith, outside, few, at))
                ∙ ap (λ (x : Process). x.pages b) eq
                ∙ o.backed b ge lt (
                    sym (
                      if-false (leb vaddr b && ltb b (vaddr + bytes)) (some v) (vma_find s.vmas b)
                        outside)
                    ∙ found)
          ];
      balanced = λ x.
          let balance = m.balance x in
          let tables = m.tables x in
          let out = o.balanced x in
          let same_taken = ap (λ (y : Process). y.taken x) eq in
          let same_freed = ap (λ (y : Process). y.freed x) eq in
          let same_tables = ap (λ (y : Process). y.in_tables x) eq in
          omega (arith, balance, tables, out, same_taken, same_freed, same_tables);
    }
