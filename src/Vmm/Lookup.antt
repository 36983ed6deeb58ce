-- ===== src/Vmm/Lookup.antt =====
-- `vmm_get_phys` and `vmm_is_mapped` of kernel/vmm.c read the same translation.
use la_os.Common.{
  ℕ, ◌+◌, ◌*◌, ◌/◌, ◌%◌, ◌^◌, ◌≡◌, refl, sym, ap, ◌∙◌, Bool, true, false, not, Option, none, some,
  arith, if◌then◌else◌, page_size,
}
use la_os.Vmm.{
  Memory, is_present, is_leaf, high_part, page_of, pml4_idx, pdpt_idx, pd_idx, pt_idx, vmm_get_phys,
  vmm_is_mapped,
}
use la_os.Vmm.View.{Mapping, index, view}

-- The page of an address.
abbrev pub page_number : ℕ → ℕ
page_number vaddr = vaddr / page_size % 2 ^ 36

abbrev pub or_zero : Option Mapping → ℕ
or_zero none = 0
or_zero (some a) = a.0

abbrev pub is_some : Option Mapping → Bool
is_some none = false
is_some (some a) = true

module _ (b4 b3 l3 b2 l2 b1 : Bool) (a3 a2 a1 : Mapping) where
  abbrev chain : Option Mapping
  chain =
      if not b4
      then none
      else if not b3
      then none
      else if l3
      then some a3
      else if not b2
      then none
      else if l2
      then some a2
      else if b1
      then some a1
      else none

chain-or_zero :
    (b4 b3 l3 b2 l2 b1 : Bool) (a3 a2 a1 : Mapping)
    → or_zero (chain b4 b3 l3 b2 l2 b1 a3 a2 a1) ≡ (
        if not b4
        then 0
        else if not b3
        then 0
        else if l3
        then a3.0
        else if not b2
        then 0
        else if l2
        then a2.0
        else if not b1
        then 0
        else a1.0)
chain-or_zero false b3 l3 b2 l2 b1 a3 a2 a1 = refl
chain-or_zero true false l3 b2 l2 b1 a3 a2 a1 = refl
chain-or_zero true true true b2 l2 b1 a3 a2 a1 = refl
chain-or_zero true true false false l2 b1 a3 a2 a1 = refl
chain-or_zero true true false true true b1 a3 a2 a1 = refl
chain-or_zero true true false true false false a3 a2 a1 = refl
chain-or_zero true true false true false true a3 a2 a1 = refl

chain-is_some :
    (b4 b3 l3 b2 l2 b1 : Bool) (a3 a2 a1 : Mapping)
    → is_some (chain b4 b3 l3 b2 l2 b1 a3 a2 a1) ≡ (
        if not b4
        then false
        else if not b3
        then false
        else if l3
        then true
        else if not b2
        then false
        else if l2
        then true
        else b1)
chain-is_some false b3 l3 b2 l2 b1 a3 a2 a1 = refl
chain-is_some true false l3 b2 l2 b1 a3 a2 a1 = refl
chain-is_some true true true b2 l2 b1 a3 a2 a1 = refl
chain-is_some true true false false l2 b1 a3 a2 a1 = refl
chain-is_some true true false true true b1 a3 a2 a1 = refl
chain-is_some true true false true false false a3 a2 a1 = refl
chain-is_some true true false true false true a3 a2 a1 = refl

-- The walk by the four indices, with the offsets in a block.
abbrev walk : (mem : Memory) → (root i4 i3 i2 i1 offset3 offset2 : ℕ) → Option Mapping
walk mem root i4 i3 i2 i1 offset3 offset2 =
    let pml4e = mem root i4 in
    let pdpte = mem (page_of pml4e) i3 in
    let pde = mem (page_of pdpte) i2 in
    let pte = mem (page_of pde) i1 in
    chain (is_present pml4e) (is_present pdpte) (is_leaf pdpte) (is_present pde) (is_leaf pde)
      (is_present pte)
      (pdpte.frame / 2 ^ 18 * 2 ^ 18 * page_size + high_part pdpte.bit + offset3, pdpte.bit)
      (pde.frame / 512 * 512 * page_size + high_part pde.bit + offset2, pde.bit)
      (page_of pte, pte.bit)

walk-view :
    (mem : Memory) (root vaddr : ℕ)
    → vaddr % page_size ≡ 0
    → walk mem root
        (pml4_idx vaddr)
        (pdpt_idx vaddr)
        (pd_idx vaddr)
        (pt_idx vaddr)
        (vaddr % 2 ^ 30)
        (vaddr % 2 ^ 21)
      ≡ view 3 mem root (page_number vaddr)
unfolding view
walk-view mem root vaddr aligned =
    let p = page_number vaddr in
    let i4 : pml4_idx vaddr ≡ index 3 p = omega arith in
    let i3 : pdpt_idx vaddr ≡ index 2 p = omega arith in
    let i2 : pd_idx vaddr ≡ index 1 p = omega arith in
    let i1 : pt_idx vaddr ≡ index 0 p = omega arith in
    let o3 : vaddr % 2 ^ 30 ≡ p % 2 ^ 18 * page_size = omega (arith, aligned) in
    let o2 : vaddr % 2 ^ 21 ≡ p % 512 * page_size = omega (arith, aligned) in
    ap
      (λ i.
        walk mem root i (pdpt_idx vaddr) (pd_idx vaddr) (pt_idx vaddr) (vaddr % 2 ^ 30)
          (vaddr % 2 ^ 21))
      i4
    ∙ ap
        (λ i.
          walk mem root (index 3 p) i (pd_idx vaddr) (pt_idx vaddr) (vaddr % 2 ^ 30)
            (vaddr % 2 ^ 21))
        i3
    ∙ ap
        (λ i.
          walk mem root (index 3 p) (index 2 p) i (pt_idx vaddr) (vaddr % 2 ^ 30) (vaddr % 2 ^ 21))
        i2
    ∙ ap
        (λ i. walk mem root (index 3 p) (index 2 p) (index 1 p) i (vaddr % 2 ^ 30) (vaddr % 2 ^ 21))
        i1
    ∙ ap (λ o. walk mem root (index 3 p) (index 2 p) (index 1 p) (index 0 p) o (vaddr % 2 ^ 21)) o3
    ∙ ap
        (λ o.
          walk mem root (index 3 p) (index 2 p) (index 1 p) (index 0 p) (p % 2 ^ 18 * page_size) o)
        o2

pub get_phys-view :
    (mem : Memory) (root vaddr : ℕ)
    → vaddr % page_size ≡ 0
    → vmm_get_phys mem root vaddr ≡ or_zero (view 3 mem root (page_number vaddr))
unfolding vmm_get_phys
get_phys-view mem root vaddr aligned =
    let pml4e = mem root (pml4_idx vaddr) in
    let pdpte = mem (page_of pml4e) (pdpt_idx vaddr) in
    let pde = mem (page_of pdpte) (pd_idx vaddr) in
    let pte = mem (page_of pde) (pt_idx vaddr) in
    sym (
      chain-or_zero (is_present pml4e) (is_present pdpte) (is_leaf pdpte) (is_present pde)
        (is_leaf pde) (is_present pte)
        (
          pdpte.frame / 2 ^ 18 * 2 ^ 18 * page_size + high_part pdpte.bit + vaddr % 2 ^ 30,
          pdpte.bit,
        )
        (pde.frame / 512 * 512 * page_size + high_part pde.bit + vaddr % 2 ^ 21, pde.bit)
        (page_of pte, pte.bit))
    ∙ ap or_zero (walk-view mem root vaddr aligned)

pub is_mapped-view :
    (mem : Memory) (root vaddr : ℕ)
    → vaddr % page_size ≡ 0
    → vmm_is_mapped mem root vaddr ≡ is_some (view 3 mem root (page_number vaddr))
unfolding vmm_is_mapped
is_mapped-view mem root vaddr aligned =
    let pml4e = mem root (pml4_idx vaddr) in
    let pdpte = mem (page_of pml4e) (pdpt_idx vaddr) in
    let pde = mem (page_of pdpte) (pd_idx vaddr) in
    let pte = mem (page_of pde) (pt_idx vaddr) in
    sym (
      chain-is_some (is_present pml4e) (is_present pdpte) (is_leaf pdpte) (is_present pde)
        (is_leaf pde) (is_present pte)
        (
          pdpte.frame / 2 ^ 18 * 2 ^ 18 * page_size + high_part pdpte.bit + vaddr % 2 ^ 30,
          pdpte.bit,
        )
        (pde.frame / 512 * 512 * page_size + high_part pde.bit + vaddr % 2 ^ 21, pde.bit)
        (page_of pte, pte.bit))
    ∙ ap is_some (walk-view mem root vaddr aligned)

-- The bits of the entry that maps an address, `none` where it is not mapped: bits 0 to 11 and 52 to
-- 63 of the last entry on the way, a block's among them.
abbrev pub bits_of : Option Mapping → Option (ℕ → Bool)
bits_of none = none
bits_of (some a) = some a.1

abbrev pub entry_bits : (mem : Memory) → (root vaddr : ℕ) → Option (ℕ → Bool)
entry_bits mem root vaddr = bits_of (view 3 mem root (page_number vaddr))

-- Both look-ups give for an address what they gave before, and the entry that maps it has the same
-- bits.
abbrev pub SameAt : (root : ℕ) → (mem mem' : Memory) → (vaddr : ℕ) → Type 0
SameAt root mem mem' vaddr =
    (vmm_get_phys mem' root vaddr ≡ vmm_get_phys mem root vaddr)
    × (vmm_is_mapped mem' root vaddr ≡ vmm_is_mapped mem root vaddr)
    × (entry_bits mem' root vaddr ≡ entry_bits mem root vaddr)

pub view-SameAt :
    (root : ℕ) (mem mem' : Memory) (w : ℕ)
    → w % page_size ≡ 0
    → view 3 mem' root (page_number w) ≡ view 3 mem root (page_number w)
    → SameAt root mem mem' w
view-SameAt root mem mem' w aligned same = (
  get_phys-view mem' root w aligned ∙ ap or_zero same ∙ sym (get_phys-view mem root w aligned),
  is_mapped-view mem' root w aligned ∙ ap is_some same ∙ sym (is_mapped-view mem root w aligned),
  ap bits_of same,
)
