-- ===== src/Vmm/Tests.antt =====
-- Runs of kernel/vmm.c on small page tables.
use la_os.Common.{
  true-false, and-off, ℕ, suc, ◌+◌, ◌-◌, ◌*◌, ◌/◌, ◌≡◌, ◌⊎◌, inl, inr, refl, sym, ap, subst, ◌∙◌,
  Bool, true, false, ◌&&◌, ◌||◌, ◌==◌, leb, [], ◌∷◌, arith, Bool-cases, if◌then◌else◌, Outcome, ok,
  panic,
}
use la_os.Vmm.{
  Memory, Vmm, table_entry, table_of, zero_entry, is_present, high_part, bits_from, map_page,
  vmm_map, vmm_get_phys, vmm_unmap,
}
use la_os.Vmm.View.{is_block}
use la_os.Vmm.Tree.{Places, IsAt}
use la_os.Vmm.Enter.{IsValid}
use la_os.Vmm.Map.{IsMapResult, map_page-IsMapResult}
use la_os.Vmm.Unmap.{IsUnmapResult, vmm_unmap-IsUnmapResult}

abbrev write_flags : ℕ → Bool
write_flags b = leb b 1

-- Tables at 0x1000, 0x2000, 0x3000 and 0x4000, which map the page 5 to 0x9000.
abbrev is_upper : ℕ → Bool
is_upper t = t == 4096 || t == 8192 || t == 12288

abbrev mem : Memory
mem t j =
    if is_upper t && (j == 0)
    then table_entry (t + 4096) write_flags
    else if t == 16384 && (j == 5)
    then record { frame = 9; bit = write_flags }
    else zero_entry

abbrev vmm : Vmm
vmm = record { mem = mem; supply = 20480 ∷ []; flushed = []; broadcasts = 0 }

abbrev places : Places
places = record { used = λ t. is_upper t || t == 16384; level = λ t. 4 - t / 4096; prefix = λ t. 0 }

abbrev mapped_page : Outcome (Bool × Vmm) → ℕ → ℕ
mapped_page (ok r) w = vmm_get_phys r.1.mem 4096 w
mapped_page panic w = 0

-- The page at 2 MiB takes a new page table, and page 5 stays.
two_pages :
    (mapped_page (vmm_map vmm 4096 2097152 40960 write_flags) 2097152 ≡ 40960)
    × (mapped_page (vmm_map vmm 4096 2097152 40960 write_flags) 20480 ≡ 36864)
unfolding vmm_map map_page vmm_get_phys bits_from
two_pages = (refl, refl)

-- A page that is mapped is not mapped again.
twice : vmm_map vmm 4096 20480 40960 write_flags ≡ panic
unfolding vmm_map map_page
twice = refl

-- A block of 2 MiB, which is the identity.
abbrev huge : Memory
huge t j =
    if (t == 4096 || t == 8192) && (j == 0)
    then table_entry (t + 4096) write_flags
    else if t == 12288 && (j == 0)
    then record { frame = 0; bit = λ b. b == 0 || b == 7 }
    else zero_entry

-- It is split for the page 3, and the page 4 stays.
splits :
    (mapped_page (map_page (record vmm { mem = huge }) 4096 12288 40960 write_flags true) 12288
      ≡ 40960)
    × (mapped_page (map_page (record vmm { mem = huge }) 4096 12288 40960 write_flags true) 16384
        ≡ 16384)
unfolding map_page vmm_get_phys bits_from
splits = (refl, refl)

or-cases : (a b : Bool) → (a || b) ≡ true → (a ≡ true) ⊎ (b ≡ true)
or-cases true b e = inl refl
or-cases false b e = inr e

upper : (n prefix t : ℕ) → IsAt places (suc n) prefix t → (t ≡ 4096) ⊎ ((t ≡ 8192) ⊎ (t ≡ 12288))
upper n prefix t here = elim (or-cases (is_upper t) (t == 16384) here.in_use) [
  | inl in_upper ↦ elim (or-cases (t == 4096 || t == 8192) (t == 12288) in_upper) [
    | inl two ↦ elim (or-cases (t == 4096) (t == 8192) two) [
      | inl e ↦ inl (ground (arith, e))
      | inr e ↦ inr (inl (ground (arith, e)))
    ]
    | inr e ↦ inr (inr (ground (arith, e)))
  ]
  | inr e ↦
      let last : t ≡ 16384 = ground (arith, e) in
      absurd (let level = sym here.has_level ∙ ap (λ t. 4 - t / 4096) last in omega (arith, level))
]

abbrev IsGood : (n prefix t i : ℕ) → Type 0
IsGood n prefix t i =
    (i ≡ 0)
    × IsAt places n (prefix * 512 + i) (table_of (mem t i))
    × (high_part (mem t i).bit ≡ 0)
    × (is_block (suc n) (mem t i) ≡ false)

first_entry : (n prefix t : ℕ) → IsAt places (suc n) prefix t → IsGood n prefix t 0
unfolding bits_from
first_entry n prefix t here = elim (upper n prefix t here) [
  | inl e ↦
      let level = ap (λ t. 4 - t / 4096) e in
      subst (λ t. IsGood n prefix t 0) (sym e)
        (
          refl,
          record {
            in_use = refl;
            has_level = omega (arith, level, here.has_level);
            has_prefix = omega (arith, here.has_prefix);
          },
          refl,
          and-off _,
        )
  | inr rest ↦ elim rest [
    | inl e ↦
        let level = ap (λ t. 4 - t / 4096) e in
        subst (λ t. IsGood n prefix t 0) (sym e)
          (
            refl,
            record {
              in_use = refl;
              has_level = omega (arith, level, here.has_level);
              has_prefix = omega (arith, here.has_prefix);
            },
            refl,
            and-off _,
          )
    | inr e ↦
        let level = ap (λ t. 4 - t / 4096) e in
        subst (λ t. IsGood n prefix t 0) (sym e)
          (
            refl,
            record {
              in_use = refl;
              has_level = omega (arith, level, here.has_level);
              has_prefix = omega (arith, here.has_prefix);
            },
            refl,
            and-off _,
          )
  ]
]

later_entry :
    (n prefix t i : ℕ)
    → IsAt places (suc n) prefix t
    → (i == 0) ≡ false
    → is_present (mem t i) ≡ false
later_entry n prefix t i here off = elim (upper n prefix t here) [
  | inl e ↦ subst (λ t. is_present (mem t i) ≡ false) (sym e) (ground (arith, off))
  | inr rest ↦ elim rest [
    | inl e ↦ subst (λ t. is_present (mem t i) ≡ false) (sym e) (ground (arith, off))
    | inr e ↦ subst (λ t. is_present (mem t i) ≡ false) (sym e) (ground (arith, off))
  ]
]

good :
    (n prefix t i : ℕ)
    → IsAt places (suc n) prefix t
    → is_present (mem t i) ≡ true
    → IsGood n prefix t i
good n prefix t i here on = elim (Bool-cases (i == 0)) [
  | inl e ↦
      let first : i ≡ 0 = ground (arith, e) in
      subst (λ i. IsGood n prefix t i) (sym first) (first_entry n prefix t here)
  | inr off ↦ absurd (true-false (sym on ∙ later_entry n prefix t i here off))
]

vmm-IsValid : IsValid vmm 4096
vmm-IsValid = record {
  places = places;
  tree = record {
    top = record { in_use = refl; has_level = refl; has_prefix = refl };
    child = λ n prefix t i here lt on table. (good n prefix t i here on).1;
    plain = λ n prefix t i here lt on table. (good n prefix t i here on).2;
    aligned = λ n prefix t i here lt on block.
        absurd (true-false (sym block ∙ (good n prefix t i here on).3));
  };
  fresh = (inr (refl, refl, tt), tt);
}

map_page-IsMapResult_example :
    IsMapResult vmm 4096 2097152 40960 write_flags false
      (map_page vmm 4096 2097152 40960 write_flags false)
map_page-IsMapResult_example =
    map_page-IsMapResult vmm 4096 2097152 40960 write_flags false vmm-IsValid refl

vmm_unmap-IsUnmapResult_example : IsUnmapResult vmm 4096 20480 (vmm_unmap vmm 4096 20480)
vmm_unmap-IsUnmapResult_example = vmm_unmap-IsUnmapResult vmm 4096 20480 vmm-IsValid (refl, refl)
