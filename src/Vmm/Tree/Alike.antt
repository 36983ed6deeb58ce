-- ===== src/Vmm/Tree/Alike.antt =====
-- Page tables of kernel/vmm.c whose entries differ in their permissions only.
use la_os.Common.{
  ℕ, zero, suc, ◌≤◌, ◌≡◌, ◌+◌, ◌*◌, ◌/◌, ◌%◌, ◌^◌, not, refl, sym, ap, subst, ◌∙◌, Bool, true,
  false, ◌&&◌, ◌||◌, ◌==◌, Option, none, some, arith, if◌then◌else◌,
}
use la_os.Vmm.{
  Entry, Memory, is_present, is_leaf, high_part, bits_from, page_of, table_of, grant, pte_writable,
  pte_user,
}
use la_os.Vmm.View.{above, index, span, has_blocks, is_block, block_address, view, Mapping}
use la_os.Vmm.Tree.{Places, IsAt, IsTree, IsRoute, start, down, child-IsAt, child-page_of}

pub record IsAlike (e e' : Entry) : Type 0 where
  pub frame : e'.frame ≡ e.frame
  pub present : is_present e' ≡ is_present e
  pub leaf : is_leaf e' ≡ is_leaf e
  pub high : high_part e'.bit ≡ high_part e.bit

or-off : (b c : Bool) → c ≡ false → (b || c) ≡ b
or-off true c off = refl
or-off false c off = off

bits_from-same :
    (rounds b : ℕ) (bit bit' : ℕ → Bool)
    → ((c : ℕ) → b ≤ c → bit' c ≡ bit c)
    → bits_from rounds b bit' ≡ bits_from rounds b bit
unfolding bits_from
bits_from-same zero b bit bit' same = refl
bits_from-same (suc rounds) b bit bit' same =
    ap (λ c. (if c then 2 ^ b else 0) + bits_from rounds (b + 1) bit') (same b (omega arith))
    ∙ ap (λ r. (if bit b then 2 ^ b else 0) + r)
        (bits_from-same rounds (b + 1) bit bit' (λ c le. same c (omega (arith, le))))

-- Bits other than the two that are granted stay.
grant-bit : (e : Entry) (flags : ℕ → Bool) (b : ℕ) → 3 ≤ b → (grant e flags).bit b ≡ e.bit b
grant-bit e flags b le =
    let user_off = λ (off : (b == pte_user) ≡ false). ap (λ c. c && flags pte_user) off in
    or-off (e.bit b || b == pte_writable) (b == pte_user && flags pte_user)
      (user_off (ground (arith, le)))
    ∙ or-off (e.bit b) (b == pte_writable) (ground (arith, le))

pub grant-IsAlike : (e : Entry) (flags : ℕ → Bool) → IsAlike e (grant e flags)
grant-IsAlike e flags = record {
  frame = refl;
  present = or-off (e.bit 0 || false) false refl ∙ or-off (e.bit 0) false refl;
  leaf =
      ap (λ b. b && (e.bit 7 || false || false))
        (or-off (e.bit 0 || false) false refl ∙ or-off (e.bit 0) false refl)
      ∙ ap (λ b. e.bit 0 && b) (or-off (e.bit 7 || false) false refl ∙ or-off (e.bit 7) false refl);
  high =
      bits_from-same 12 52 e.bit (grant e flags).bit
        (λ c le. grant-bit e flags c (omega (arith, le)));
}

pub IsAlike-refl : (e : Entry) → IsAlike e e
IsAlike-refl e = record { frame = refl; present = refl; leaf = refl; high = refl }

-- The tests of `through`.
abbrev chain :
    (present block : Bool) → (mapping : Mapping) → (rest : Option Mapping) → Option Mapping
chain present block mapping rest =
    if not present then none else if block then some mapping else rest

chain-same :
    (present block : Bool) (m m' : Mapping) (rest rest' : Option Mapping)
    → (block ≡ true → m' ≡ m)
    → (present ≡ true → block ≡ false → rest' ≡ rest)
    → chain present block m' rest' ≡ chain present block m rest
chain-same false block m m' rest rest' here below = refl
chain-same true true m m' rest rest' here below = ap some (here refl)
chain-same true false m m' rest rest' here below = below refl refl

-- An entry of the level maps pages itself.
abbrev pub maps : ℕ → Entry → Bool
maps zero e = true
maps (suc n) e = is_block (suc n) e

module _ (mem mem' : Memory) (alike : (t i : ℕ) → IsAlike (mem t i) (mem' t i)) where
  pub table_of-same : (t i : ℕ) → table_of (mem' t i) ≡ table_of (mem t i)
  table_of-same t i = ap (λ f. f * 4096) (alike t i).frame

  page_of-same : (t i : ℕ) → page_of (mem' t i) ≡ page_of (mem t i)
  page_of-same t i = omega (arith, (alike t i).frame, (alike t i).high)

  is_block-same : (n t i : ℕ) → is_block n (mem' t i) ≡ is_block n (mem t i)
  is_block-same n t i = ap (λ b. has_blocks n && b) (alike t i).leaf

  block_address-same : (n p t i : ℕ) → block_address n (mem' t i) p ≡ block_address n (mem t i) p
  block_address-same n p t i =
      ap (λ f. f / span n * span n * 4096 + high_part (mem' t i).bit + p % span n * 4096)
        (alike t i).frame
      ∙ ap (λ h. (mem t i).frame / span n * span n * 4096 + h + p % span n * 4096) (alike t i).high

  pub alike-IsTree : (s : Places) (root : ℕ) → IsTree s mem root → IsTree s mem' root
  alike-IsTree s root tree = record {
    top = tree.top;
    child = λ n prefix t i here lt on table.
        subst (λ c. IsAt s n (prefix * 512 + i) c) (sym (table_of-same t i))
          (tree.child n prefix t i here lt (sym (alike t i).present ∙ on)
            (sym (is_block-same (suc n) t i) ∙ table));
    plain = λ n prefix t i here lt on table.
        (alike t i).high
        ∙ tree.plain n prefix t i here lt (sym (alike t i).present ∙ on)
            (sym (is_block-same (suc n) t i) ∙ table);
    aligned = λ n prefix t i here lt on block.
        ap (λ f. f % span (suc n)) (alike t i).frame
        ∙ tree.aligned n prefix t i here lt (sym (alike t i).present ∙ on)
            (sym (is_block-same (suc n) t i) ∙ block);
  }

  pub alike-IsRoute : (root p n t : ℕ) → IsRoute mem root p n t → IsRoute mem' root p n t
  alike-IsRoute root p n t start = start
  alike-IsRoute root p n t (down {t = u} r on table) =
      subst (λ c. IsRoute mem' root p n c) (table_of-same u (index (suc n) p))
        (down (alike-IsRoute root p (suc n) u r) ((alike u (index (suc n) p)).present ∙ on)
          (is_block-same (suc n) u (index (suc n) p) ∙ table))

  -- Where the entries that map pages keep all of their bits, the same pages are mapped, to the same
  -- addresses with the same bits.
  module _ (s : Places) (root : ℕ) (tree : IsTree s mem root)
      (exact : (n a t i : ℕ)
        → IsAt s n a t
        → maps n (mem t i) ≡ true
        → (mem' t i).bit ≡ (mem t i).bit) where
    pub alike-view : (n t p : ℕ) → IsAt s n (above (suc n) p) t → view n mem' t p ≡ view n mem t p
    unfolding view
    alike-view zero t p here =
        let i = index 0 p in
        ap (λ b. if b then some (page_of (mem' t i), (mem' t i).bit) else none) (alike t i).present
        ∙ ap (λ a. if is_present (mem t i) then some (a, (mem' t i).bit) else none)
            (page_of-same t i)
        ∙ ap (λ b. if is_present (mem t i) then some (page_of (mem t i), b) else none)
            (exact 0 _ t i here refl)
    alike-view (suc n) t p here =
        let i = index (suc n) p in
        let m' : Mapping = (block_address (suc n) (mem' t i) p, (mem' t i).bit) in
        let m : Mapping = (block_address (suc n) (mem t i) p, (mem t i).bit) in
        let rest' = view n mem' (page_of (mem' t i)) p in
        let rest = view n mem (page_of (mem t i)) p in
        ap (λ b. chain b (is_block (suc n) (mem' t i)) m' rest') (alike t i).present
        ∙ ap (λ b. chain (is_present (mem t i)) b m' rest') (is_block-same (suc n) t i)
        ∙ chain-same (is_present (mem t i)) (is_block (suc n) (mem t i)) m m' rest rest'
            (λ block.
              ap (λ a. (a, (mem' t i).bit)) (block_address-same (suc n) p t i)
              ∙ ap (λ b. (block_address (suc n) (mem t i) p, b)) (exact (suc n) _ t i here block))
            (λ on table.
              let eq = child-page_of s mem root tree n p t here on table in
              ap (λ c. view n mem' c p) (page_of-same t i ∙ eq)
              ∙ alike-view n _ p (child-IsAt s mem root tree n p t here on table)
              ∙ sym (ap (λ c. view n mem c p) eq))
