-- ===== src/Vmm/Enter.antt =====
-- The steps of `__vmm_map` of kernel/vmm.c to the table of the next level.
use la_os.Common.{
  ℕ, zero, suc, ◌+◌, ◌*◌, ◌/◌, ◌%◌, ◌^◌, ◌<◌, ◌≡◌, inl, inr, refl, sym, ap, subst, ◌∙◌, Bool, true,
  false, ◌&&◌, ◌==◌, none, some, List, [], ◌∷◌, arith, if◌then◌else◌, if-both, if-false, split_and,
  Bool-cases, true-false, page_size,
}
use la_os.Vmm.{
  Entry, Memory, Vmm, Descent, into, no_page, is_present, table_of, page_of, table_entry, grant,
  write, fill, zero_entry, next_page, later_pages, follow, enter_absent, enter_present,
}
use la_os.Vmm.View.{above, index, span, is_block, view, through-absent}
use la_os.Vmm.Tree.{Places, IsTree, IsFresh, NotIn, IsAt, IsRoute, down, route-IsAt, root-IsAt}
use la_os.Vmm.Tree.Alike.{
  IsAlike, IsAlike-refl, grant-IsAlike, maps, alike-view, alike-IsTree, alike-IsRoute,
  table_of-same,
}
use la_os.Vmm.Tree.Grow.{
  grown, linked, grown-IsTree, grown-view, grown-IsRoute, linked-here, linked-new,
}

-- The tables are a tree, and the pages that `pmm_alloc` gives are none of them.
pub record IsValid (v : Vmm) (root : ℕ) : Type 0 where
  pub places : Places
  pub tree : IsTree places v.mem root
  pub fresh : IsFresh places v.supply

-- The same pages are mapped, to the same addresses by entries with the same bits.
abbrev pub SameView : (root : ℕ) → Memory → Memory → Type 0
SameView root mem mem' = (q : ℕ) → q < 2 ^ 36 → view 3 mem' root q ≡ view 3 mem root q

-- A step for the page `p` to a table of the level `n` changes no translation.
pub data IsEntered (root p n : ℕ) (v : Vmm) : Descent → Type 0 where
  failed :
      {v' : Vmm} → IsValid v' root → SameView root v.mem v'.mem → IsEntered root p n v (no_page v')
  entered :
      {c : ℕ} {v' : Vmm}
      → IsValid v' root
      → SameView root v.mem v'.mem
      → IsRoute v'.mem root p n c
      → IsEntered root p n v (into c v')

pub later-IsFresh : (s : Places) (ns : List ℕ) → IsFresh s ns → IsFresh s (later_pages ns)
later-IsFresh s [] fresh = tt
later-IsFresh s (n ∷ ns) fresh = fresh.1

-- What `pmm_alloc` gives that is not 0.
pub record IsNewPage (s : Places) (m : ℕ) (ns : List ℕ) : Type 0 where
  pub is_page : m / page_size % 2 ^ 40 * page_size ≡ m
  pub unused : s.used m ≡ false
  pub distinct : NotIn m ns

pub next-IsNewPage :
    (s : Places) (ns : List ℕ)
    → IsFresh s ns
    → (next_page ns == 0) ≡ false
    → IsNewPage s (next_page ns) (later_pages ns)
next-IsNewPage s [] fresh given = cc
next-IsNewPage s (n ∷ ns) fresh given = elim fresh.0 [
  | inl none_given ↦ absurd (ground (arith, given, none_given))
  | inr new ↦ record { is_page = new.0; unused = new.1; distinct = new.2 }
]

pub grown-IsFresh :
    (s : Places) (n a i m : ℕ) (ns : List ℕ)
    → NotIn m ns
    → IsFresh s ns
    → IsFresh
        (record {
          used = λ u. if u == m then true else s.used u;
          level = λ u. if u == m then n else s.level u;
          prefix = λ u. if u == m then a * 512 + i else s.prefix u;
        })
        ns
grown-IsFresh s n a i m [] distinct fresh = tt
grown-IsFresh s n a i m (k ∷ ns) distinct fresh = (
  elim fresh.0 [
    | inl z ↦ inl z
    | inr new ↦
        inr (new.0, if-false (k == m) true (s.used k) (ground (arith, distinct.0)) ∙ new.1, new.2)
  ],
  grown-IsFresh s n a i m ns distinct.1 fresh.1,
)

-- A table of zeros translates nothing.
empty-view :
    (n : ℕ) (mem : Memory) (m q : ℕ) → ((j : ℕ) → mem m j ≡ zero_entry) → view n mem m q ≡ none
unfolding view
empty-view zero mem m q zeros =
    if-false (is_present (mem m (index 0 q)))
      (some (page_of (mem m (index 0 q)), (mem m (index 0 q)).bit)) none
      (ap is_present (zeros (index 0 q)))
empty-view (suc n) mem m q zeros =
    through-absent (suc n) (mem m (index (suc n) q)) q _ (ap is_present (zeros (index (suc n) q)))

pub absent-view :
    (n : ℕ) (mem : Memory) (t q : ℕ)
    → is_present (mem t (index (suc n) q)) ≡ false
    → view (suc n) mem t q ≡ none
unfolding view
absent-view n mem t q off = through-absent (suc n) (mem t (index (suc n) q)) q _ off

pub granted-IsAlike :
    (mem : Memory) (t i : ℕ) (flags : ℕ → Bool) (u j : ℕ)
    → IsAlike (mem u j) (write mem t i (grant (mem t i) flags) u j)
granted-IsAlike mem t i flags u j =
    if-both (IsAlike (mem u j)) (u == t && (j == i)) (grant (mem t i) flags) (mem u j)
      (λ on.
        let (e, f) = split_and (u == t) (j == i) on in
        subst (λ k. IsAlike (mem u k) (grant (mem t i) flags)) (sym (ground (arith, f)))
          (subst (λ w. IsAlike (mem w i) (grant (mem t i) flags)) (sym (ground (arith, e)))
            (grant-IsAlike (mem t i) flags)))
      (λ off. IsAlike-refl (mem u j))

-- The entry that is granted more names a table.
granted-exact :
    (s : Places) (mem : Memory) (t i n a : ℕ) (flags : ℕ → Bool)
    → IsAt s (suc n) a t
    → is_block (suc n) (mem t i) ≡ false
    → (l b u j : ℕ) → IsAt s l b u
    → maps l (mem u j) ≡ true
    → (write mem t i (grant (mem t i) flags) u j).bit ≡ (mem u j).bit
granted-exact s mem t i n a flags place table l b u j here on =
    elim (Bool-cases (u == t && (j == i))) [
      | inr off ↦
          ap (λ e. e.bit) (if-false (u == t && (j == i)) (grant (mem t i) flags) (mem u j) off)
      | inl same ↦
          let (e, f) = split_and (u == t) (j == i) same in
          let at_t : u ≡ t = ground (arith, e) in
          let at_i : j ≡ i = ground (arith, f) in
          let level = sym here.has_level ∙ ap s.level at_t ∙ place.has_level in
          absurd (
            true-false (
              sym on
              ∙ ap (λ l. maps l (mem u j)) level
              ∙ ap (λ u. is_block (suc n) (mem u j)) at_t
              ∙ ap (λ j. is_block (suc n) (mem t j)) at_i
              ∙ table))
    ]

module _ (root p n : ℕ) (bound : p < 2 ^ 36) (t : ℕ) (flags : ℕ → Bool) where
  abbrev slot : ℕ
  slot = index (suc n) p

  pub enter_present-IsEntered :
      (v : Vmm)
      → IsValid v root
      → IsRoute v.mem root p (suc n) t
      → is_present (v.mem t slot) ≡ true
      → is_block (suc n) (v.mem t slot) ≡ false
      → IsEntered root p n v (enter_present v t slot flags)
  enter_present-IsEntered v valid r on table =
      let mem' = write v.mem t slot (grant (v.mem t slot) flags) in
      let alike = granted-IsAlike v.mem t slot flags in
      entered
        (record {
          places = valid.places;
          tree = alike-IsTree v.mem mem' alike valid.places root valid.tree;
          fresh = valid.fresh;
        })
        (λ q in_range.
          alike-view v.mem mem' alike valid.places root valid.tree
            (granted-exact valid.places v.mem t slot n _ flags
              (route-IsAt valid.places v.mem root valid.tree p (suc n) t bound r) table)
            3 root q (root-IsAt valid.places v.mem root valid.tree q in_range))
        (subst (λ c. IsRoute mem' root p n c) (sym (table_of-same v.mem mem' alike t slot))
          (alike-IsRoute v.mem mem' alike root p n _ (down r on table)))

  -- A page that is a table from here on.
  pub new-IsEntered :
      (v : Vmm) (flushed : List ℕ) (es : ℕ → Entry) (valid : IsValid v root)
      → IsRoute v.mem root p (suc n) t
      → IsNewPage valid.places (next_page v.supply) (later_pages v.supply)
      → ((l j : ℕ)
          → n ≡ suc l
          → is_present (es j) ≡ true
          → (is_block n (es j) ≡ true) × ((es j).frame % span n ≡ 0))
      → ((mem' : Memory) (q : ℕ)
          → ((j : ℕ) → mem' (next_page v.supply) j ≡ es j)
          → index (suc n) q ≡ slot
          → view n mem' (next_page v.supply) q ≡ view (suc n) v.mem t q)
      → IsEntered root p n v (
          follow
            (record v {
              supply = later_pages v.supply;
              flushed = flushed;
              mem =
                  write
                    (fill v.mem (next_page v.supply) es)
                    t
                    slot
                    (table_entry (next_page v.supply) flags);
            })
            t
            slot)
  new-IsEntered v flushed es valid r new content agrees =
      let s = valid.places in
      let m = next_page v.supply in
      let place = route-IsAt s v.mem root valid.tree p (suc n) t bound r in
      let a = above (suc (suc n)) p in
      let mem' =
        linked s v.mem root valid.tree n a t slot place m new.is_page new.unused es flags in
      entered
        (record {
          places = grown s v.mem root valid.tree n a t slot place m new.is_page new.unused es flags;
          tree =
              grown-IsTree s v.mem root valid.tree n a t slot place m new.is_page new.unused es
                flags content;
          fresh = grown-IsFresh s n a slot m _ new.distinct (later-IsFresh s v.supply valid.fresh);
        })
        (grown-view s v.mem root valid.tree n a t slot place m new.is_page new.unused es flags
          (λ q at_slot.
            agrees mem' q
              (linked-new s v.mem root valid.tree n a t slot place m new.is_page new.unused es
                flags)
              at_slot))
        (subst (λ c. IsRoute mem' root p n c)
          (sym (
            ap table_of (
              linked-here s v.mem root valid.tree n a t slot place m new.is_page new.unused es
                flags)
            ∙ new.is_page))
          (grown-IsRoute s v.mem root valid.tree n a t slot place m new.is_page new.unused es flags
            p bound refl r))

  pub out_of_pages :
      (v v' : Vmm) (valid : IsValid v root)
      → v'.mem ≡ v.mem
      → v'.supply ≡ later_pages v.supply
      → IsEntered root p n v (no_page v')
  out_of_pages v v' valid mem_same supply_later =
      failed
        (record {
          places = valid.places;
          tree = subst (λ mem. IsTree valid.places mem root) (sym mem_same) valid.tree;
          fresh =
              subst (IsFresh valid.places) (sym supply_later)
                (later-IsFresh valid.places v.supply valid.fresh);
        })
        (λ q in_range. ap (λ mem. view 3 mem root q) mem_same)

  pub enter_absent-IsEntered :
      (v : Vmm) (valid : IsValid v root)
      → IsRoute v.mem root p (suc n) t
      → is_present (v.mem t slot) ≡ false
      → IsEntered root p n v (enter_absent v t slot flags)
  enter_absent-IsEntered v valid r off =
      if-both (IsEntered root p n v) (next_page v.supply == 0)
        (no_page (record v { supply = later_pages v.supply })) _
        (λ z. out_of_pages v (record v { supply = later_pages v.supply }) valid refl refl)
        (λ given.
          new-IsEntered v v.flushed (λ j. zero_entry) valid r
            (next-IsNewPage valid.places v.supply valid.fresh given) (λ l j level on. cc)
            (λ mem' q zeros at_slot.
              empty-view n mem' (next_page v.supply) q zeros
              ∙ sym (
                  absent-view n v.mem t q
                    (subst (λ j. is_present (v.mem t j) ≡ false) (sym at_slot) off))))
