-- ===== src/Vmm/Tree.antt =====
-- The shape of the page tables of kernel/vmm.c: each table is named by one entry.
pub mod Alike
pub mod Change
pub mod Grow
use la_os.Common.{
  ℕ, zero, suc, ◌+◌, ◌*◌, ◌/◌, ◌%◌, ◌^◌, ◌<◌, ◌≡◌, ◌≢◌, ◌⊎◌, inl, inr, refl, sym, ap, subst, ◌∙◌,
  Bool, true, false, List, [], ◌∷◌, Option, none, some, arith, Bool-cases, page_size,
}
use la_os.Vmm.{Entry, Memory, Vmm, is_present, high_part, table_of, page_of}
use la_os.Vmm.View.{above, index, span, is_block, view, through, through-same, through-table}

-- The tables in use, each with its level and the digits of the pages that it translates.
pub record Places : Type 0 where
  pub used : ℕ → Bool
  pub level : ℕ → ℕ
  pub prefix : ℕ → ℕ

-- A table of the level `n` in use.
pub record IsAt (s : Places) (n prefix table : ℕ) : Type 0 where
  pub in_use : s.used table ≡ true
  pub has_level : s.level table ≡ n
  pub has_prefix : s.prefix table ≡ prefix

pub record IsTree (s : Places) (mem : Memory) (root : ℕ) : Type 0 where
  pub top : IsAt s 3 0 root
  -- What an entry names that is present and no block.
  pub child :
      (n prefix t i : ℕ)
      → IsAt s (suc n) prefix t
      → i < 512
      → is_present (mem t i) ≡ true
      → is_block (suc n) (mem t i) ≡ false
      → IsAt s n (prefix * 512 + i) (table_of (mem t i))
  -- The tables' entries have no bits above the address.
  pub plain :
      (n prefix t i : ℕ)
      → IsAt s (suc n) prefix t
      → i < 512
      → is_present (mem t i) ≡ true
      → is_block (suc n) (mem t i) ≡ false
      → high_part (mem t i).bit ≡ 0
  -- A block starts at a multiple of its length.
  pub aligned :
      (n prefix t i : ℕ)
      → IsAt s (suc n) prefix t
      → i < 512
      → is_present (mem t i) ≡ true
      → is_block (suc n) (mem t i) ≡ true
      → (mem t i).frame % span (suc n) ≡ 0

-- The pages that are left are no tables in use, and each is there once.
abbrev pub NotIn : ℕ → List ℕ → Type 0
NotIn n [] = Unit {0}
NotIn n (m ∷ ms) = (n ≢ m) × NotIn n ms

abbrev pub IsFresh : Places → List ℕ → Type 0
IsFresh s [] = Unit {0}
IsFresh s (n ∷ ns) =
    ((n ≡ 0) ⊎ ((n / page_size % 2 ^ 40 * page_size ≡ n) × (s.used n ≡ false) × NotIn n ns))
    × IsFresh s ns

-- The way from the root to a table for a page.
pub data IsRoute (mem : Memory) (root p : ℕ) : ℕ → ℕ → Type 0 where
  start : IsRoute mem root p 3 root
  down :
      {n t : ℕ}
      → IsRoute mem root p (suc n) t
      → is_present (mem t (index (suc n) p)) ≡ true
      → is_block (suc n) (mem t (index (suc n) p)) ≡ false
      → IsRoute mem root p n (table_of (mem t (index (suc n) p)))

above-index : (n p : ℕ) → above (suc n) p * 512 + index n p ≡ above n p
above-index n p = omega arith

pub index-range : (n p : ℕ) → index n p < 512
index-range n p = omega arith

module _ (s : Places) (mem : Memory) (root : ℕ) (tree : IsTree s mem root) where
  pub child-IsAt :
      (n p t : ℕ)
      → IsAt s (suc n) (above (suc (suc n)) p) t
      → is_present (mem t (index (suc n) p)) ≡ true
      → is_block (suc n) (mem t (index (suc n) p)) ≡ false
      → IsAt s n (above (suc n) p) (table_of (mem t (index (suc n) p)))
  child-IsAt n p t here on table =
      subst (λ q. IsAt s n q (table_of (mem t (index (suc n) p)))) (above-index (suc n) p)
        (tree.child n _ t (index (suc n) p) here (index-range (suc n) p) on table)

  -- `page_of` and `table_of` agree.
  pub child-page_of :
      (n p t : ℕ)
      → IsAt s (suc n) (above (suc (suc n)) p) t
      → is_present (mem t (index (suc n) p)) ≡ true
      → is_block (suc n) (mem t (index (suc n) p)) ≡ false
      → page_of (mem t (index (suc n) p)) ≡ table_of (mem t (index (suc n) p))
  child-page_of n p t here on table =
      let high = tree.plain n _ t (index (suc n) p) here (index-range (suc n) p) on table in
      omega (arith, high)

  pub root-IsAt : (p : ℕ) → p < 2 ^ 36 → IsAt s 3 (above 4 p) root
  root-IsAt p bound = subst (λ q. IsAt s 3 q root) (omega (arith, bound)) tree.top

  pub route-IsAt : (p n t : ℕ) → p < 2 ^ 36 → IsRoute mem root p n t → IsAt s n (above (suc n) p) t
  route-IsAt p n t bound start = root-IsAt p bound
  route-IsAt p n t bound (down {t = u} r on table) =
      child-IsAt n p u (route-IsAt p (suc n) u bound r) on table

  -- The route ends where the translation goes.
  pub route-view :
      (p n t : ℕ) → p < 2 ^ 36 → IsRoute mem root p n t → view 3 mem root p ≡ view n mem t p
  unfolding view
  route-view p n t bound start = refl
  route-view p n t bound (down {t = u} r on table) =
      route-view p (suc n) u bound r
      ∙ through-table (suc n) (mem u (index (suc n) p)) p _ on table
      ∙ ap (λ c. view n mem c p) (child-page_of n p u (route-IsAt p (suc n) u bound r) on table)
