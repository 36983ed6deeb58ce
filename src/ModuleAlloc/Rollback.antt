-- ===== src/ModuleAlloc/Rollback.antt =====
-- The pages that a call of `module_alloc` of kernel/module_alloc.c maps, and their return by
-- `module_alloc_rollback`.
use la_os.Common.{
  ℕ, ◌+◌, ◌-◌, ◌*◌, ◌/◌, ◌%◌, ◌≤◌, ◌<◌, ◌≡◌, ◌∙◌, refl, sym, ap, Bool, false, Bool-cases, inl, inr,
  ◌==◌, if◌then◌else◌, if-true, if-false, List, [], ◌∷◌, length, page_size, arith,
}
use la_os.ModuleAlloc.{Region, Pages}

-- Whether two addresses lie in one page.
abbrev pub same_page : (u va : ℕ) → Bool
same_page u va = u / page_size == va / page_size

abbrev pub one : (q phys : ℕ) → ℕ
one q phys = if q == phys then 1 else 0

-- What this file relies on. `out w q` is how often the page at `q` is with this file; the pages
-- that `vmm_map` takes for its tables are not. A mapping of an unmapped page succeeds.
pub record PagesLaws {W : Type 0} (pages : Pages W) (out : W → ℕ → ℕ) : Type 0 where
  pub alloc_get :
      (w : W) (u : ℕ) → pages.vmm_get_phys (pages.pmm_alloc w).1 u ≡ pages.vmm_get_phys w u
  pub alloc_out :
      (w : W) (q : ℕ)
      → out (pages.pmm_alloc w).1 q
        ≡ (if (pages.pmm_alloc w).0 == 0 then 0 else one q (pages.pmm_alloc w).0) + out w q
  pub free_get :
      (w : W) (phys u : ℕ) → pages.vmm_get_phys (pages.pmm_free w phys) u ≡ pages.vmm_get_phys w u
  pub free_out : (w : W) (phys q : ℕ) → out (pages.pmm_free w phys) q ≡ out w q - one q phys
  pub map_get :
      (w : W) (va phys u : ℕ)
      → va % page_size ≡ 0
      → pages.vmm_get_phys w va ≡ 0
      → pages.vmm_get_phys (pages.vmm_map w va phys) u
        ≡ (if same_page u va then phys else pages.vmm_get_phys w u)
  pub map_out : (w : W) (va phys q : ℕ) → out (pages.vmm_map w va phys) q ≡ out w q
  pub unmap_get :
      (w : W) (va u : ℕ)
      → va % page_size ≡ 0
      → pages.vmm_get_phys (pages.vmm_unmap w va) u
        ≡ (if same_page u va then 0 else pages.vmm_get_phys w u)
  pub unmap_out : (w : W) (va q : ℕ) → out (pages.vmm_unmap w va) q ≡ out w q

-- The translation of `u` where the pages `ps` stand from `va` on, and `d` elsewhere.
unfoldable look : List ℕ → (va u d : ℕ) → ℕ
look [] va u d = d
look (p ∷ ps) va u d = if same_page u va then p else look ps (va + page_size) u d

unfoldable times : (q : ℕ) → List ℕ → ℕ
times q [] = 0
times q (p ∷ ps) = one q p + times q ps

unfoldable AllPages : List ℕ → Type 0
AllPages [] = Unit
AllPages (p ∷ ps) = ((p == 0) ≡ false) × AllPages ps

look-below : (ps : List ℕ) (va u d : ℕ) → u / page_size < va / page_size → look ps va u d ≡ d
unfolding look
look-below [] va u d lt = refl
look-below (p ∷ ps) va u d lt =
    if-false (same_page u va) p (look ps (va + page_size) u d) (ground (arith, lt))
    ∙ look-below ps (va + page_size) u d (omega (arith, lt))

module _ {W : Type 0} (pages : Pages W) (out : W → ℕ → ℕ) (laws : PagesLaws pages out) where
  -- `x` is `w` with the pages `ps` mapped from `va` on.
  record Added (ps : List ℕ) (va : ℕ) (w x : W) : Type 0 where
    get : (u : ℕ) → pages.vmm_get_phys x u ≡ look ps va u (pages.vmm_get_phys w u)
    out_at : (q : ℕ) → out x q ≡ times q ps + out w q
    all : AllPages ps

  -- No page behind the mapped end translates.
  abbrev pub IsUnmapped : Region → W → Type 0
  IsUnmapped s w = (u : ℕ) → s.mapped ≤ u → u ≤ s.max → pages.vmm_get_phys w u ≡ 0

  -- The result of an expansion.
  abbrev Adds : Region → W → Bool × Region × W → Type 0
  Adds s w r =
      (ps : List ℕ) × (r.1.mapped ≡ s.mapped + length ps * page_size) × Added ps s.mapped w r.2

  -- Every address translates as it did, and each page is with this file as often as it was.
  pub record IsReturned (w x : W) : Type 0 where
    pub get : (u : ℕ) → pages.vmm_get_phys x u ≡ pages.vmm_get_phys w u
    pub out_at : (q : ℕ) → out x q ≡ out w q

  -- A round of the loop takes the first page away.
  unmap_page :
      (p : ℕ) (ps : List ℕ) (va : ℕ) (w x : W)
      → va % page_size ≡ 0
      → ((u : ℕ) → va ≤ u → u < va + page_size → pages.vmm_get_phys w u ≡ 0)
      → Added (p ∷ ps) va w x
      → Added ps (va + page_size) w (pages.pmm_free (pages.vmm_unmap x va) p)
  unfolding look times AllPages
  unmap_page p ps va w x whole free a = record {
    get = get_at;
    out_at = λ q.
        laws.free_out (pages.vmm_unmap x va) p q
        ∙ ap (λ n. n - one q p) (laws.unmap_out x va q ∙ a.out_at q)
        ∙ omega arith;
    all = a.all.1;
  }
    where
      get_at :
          (u : ℕ)
          → pages.vmm_get_phys (pages.pmm_free (pages.vmm_unmap x va) p) u
            ≡ look ps (va + page_size) u (pages.vmm_get_phys w u)
      get_at u =
          laws.free_get (pages.vmm_unmap x va) p u
          ∙ laws.unmap_get x va u whole
          ∙ elim (Bool-cases (same_page u va)) [
            | inl here ↦
                if-true (same_page u va) 0 (pages.vmm_get_phys x u) here
                ∙ sym (free u (ground (arith, here, whole)) (ground (arith, here, whole)))
                ∙ sym (look-below ps (va + page_size) u _ (ground (arith, here)))
            | inr there ↦
                if-false (same_page u va) 0 (pages.vmm_get_phys x u) there
                ∙ a.get u
                ∙ if-false (same_page u va) p _ there
          ]
