-- ===== src/Vmm/Tree/Grow.antt =====
-- A new table in the page tables of kernel/vmm.c.
use la_os.Common.{
  true-false, and-off, ℕ, suc, ◌+◌, ◌*◌, ◌/◌, ◌%◌, ◌^◌, ◌<◌, ◌≡◌, ◌≢◌, inl, inr, refl, sym, ap,
  subst, ◌∙◌, Bool, true, false, ◌&&◌, ◌==◌, arith, Bool-cases, if◌then◌else◌, split_and, if-true,
  if-false, page_size,
}
use la_os.Vmm.{
  Entry, Memory, is_present, high_part, bits_from, table_of, page_of, table_entry, write, fill,
}
use la_os.Vmm.View.{
  index, span, has_blocks, is_block, view, through, through-table, write-here, write-there,
  fill-here, fill-there,
}
use la_os.Vmm.Tree.{Places, IsAt, IsTree, IsRoute, down, root-IsAt}
use la_os.Vmm.Tree.Change.{and-differ, same_view, route-kept}

==-off : (a b : ℕ) → a ≢ b → (a == b) ≡ false
==-off a b ne = ground (arith, ne)

pub table_entry-table : (n m : ℕ) (flags : ℕ → Bool) → is_block n (table_entry m flags) ≡ false
table_entry-table n m flags = and-off (has_blocks n)

pub table_entry-high : (m : ℕ) (flags : ℕ → Bool) → high_part (table_entry m flags).bit ≡ 0
unfolding bits_from
table_entry-high m flags = refl

module _ (s : Places) (mem : Memory) (root : ℕ) (tree : IsTree s mem root) (n a t i : ℕ)
    (place : IsAt s (suc n) a t) (m : ℕ) (is_page : m / page_size % 2 ^ 40 * page_size ≡ m)
    (unused : s.used m ≡ false) (es : ℕ → Entry) (flags : ℕ → Bool) where
  abbrev pub grown : Places
  grown = record {
    used = λ u. if u == m then true else s.used u;
    level = λ u. if u == m then n else s.level u;
    prefix = λ u. if u == m then a * 512 + i else s.prefix u;
  }

  abbrev pub linked : Memory
  linked = write (fill mem m es) t i (table_entry m flags)

  used-differs : (u : ℕ) → s.used u ≡ true → u ≢ m
  used-differs u on e = true-false (sym on ∙ ap s.used e ∙ unused)

  pub new-IsAt : IsAt grown n (a * 512 + i) m
  new-IsAt = record {
    in_use = if-true (m == m) true (s.used m) (ground arith);
    has_level = if-true (m == m) n (s.level m) (ground arith);
    has_prefix = if-true (m == m) (a * 512 + i) (s.prefix m) (ground arith);
  }

  pub old-IsAt : (l b u : ℕ) → IsAt s l b u → IsAt grown l b u
  old-IsAt l b u here =
      let off = ==-off u m (used-differs u here.in_use) in
      record {
        in_use = if-false (u == m) true (s.used u) off ∙ here.in_use;
        has_level = if-false (u == m) n (s.level u) off ∙ here.has_level;
        has_prefix = if-false (u == m) (a * 512 + i) (s.prefix u) off ∙ here.has_prefix;
      }

  strip-IsAt : (l b u : ℕ) → (u == m) ≡ false → IsAt grown l b u → IsAt s l b u
  strip-IsAt l b u off here = record {
    in_use = sym (if-false (u == m) true (s.used u) off) ∙ here.in_use;
    has_level = sym (if-false (u == m) n (s.level u) off) ∙ here.has_level;
    has_prefix = sym (if-false (u == m) (a * 512 + i) (s.prefix u) off) ∙ here.has_prefix;
  }

  pub linked-here : linked t i ≡ table_entry m flags
  linked-here = write-here (fill mem m es) t i (table_entry m flags)

  linked-same : (u j : ℕ) → s.used u ≡ true → (u ≡ t → j ≢ i) → linked u j ≡ mem u j
  linked-same u j on off =
      write-there (fill mem m es) t i u j (table_entry m flags) off
      ∙ fill-there mem m u j es (used-differs u on)

  pub linked-new : (j : ℕ) → linked m j ≡ es j
  linked-new j =
      write-there (fill mem m es) t i m j (table_entry m flags)
        (λ e. absurd (used-differs t place.in_use (sym e)))
      ∙ fill-here mem m j es

  -- Where an entry of the new memory comes from.
  data IsFrom (l b u j : ℕ) : Type 0 where
    old : IsAt s (suc l) b u → linked u j ≡ mem u j → IsFrom l b u j
    link : l ≡ n → b ≡ a → j ≡ i → linked u j ≡ table_entry m flags → IsFrom l b u j
    fresh : n ≡ suc l → linked u j ≡ es j → IsFrom l b u j

  from_link : (l b u j : ℕ) → IsAt s (suc l) b u → u ≡ t → j ≡ i → IsFrom l b u j
  from_link l b u j here e f =
      let level = sym here.has_level ∙ ap s.level e ∙ place.has_level in
      link (omega (arith, level)) (sym here.has_prefix ∙ ap s.prefix e ∙ place.has_prefix) f
        (ap (λ u. linked u j) e ∙ ap (λ j. linked t j) f ∙ linked-here)

  from_old : (l b u j : ℕ) → IsAt s (suc l) b u → IsFrom l b u j
  from_old l b u j here = elim (Bool-cases (u == t && (j == i))) [
    | inl on ↦
        let (e, f) = split_and (u == t) (j == i) on in
        from_link l b u j here (ground (arith, e)) (ground (arith, f))
    | inr off ↦ old here (
        linked-same u j here.in_use
          (λ e f. and-differ (u == t) (j == i) off (ground (arith, e)) (ground (arith, f))))
  ]

  from : (l b u j : ℕ) → IsAt grown (suc l) b u → IsFrom l b u j
  from l b u j here = elim (Bool-cases (u == m)) [
    | inl on ↦
        let e : u ≡ m = ground (arith, on) in
        fresh (sym new-IsAt.has_level ∙ sym (ap grown.level e) ∙ here.has_level)
          (ap (λ u. linked u j) e ∙ linked-new j)
    | inr off ↦ from_old l b u j (strip-IsAt (suc l) b u off here)
  ]

  module _
      (content : (l j : ℕ)
        → n ≡ suc l
        → is_present (es j) ≡ true
        → (is_block n (es j) ≡ true) × ((es j).frame % span n ≡ 0)) where
    fresh-block : (l j : ℕ) → n ≡ suc l → is_present (es j) ≡ true → is_block (suc l) (es j) ≡ true
    fresh-block l j level on = subst (λ n. is_block n (es j) ≡ true) level (content l j level on).0

    grown-child :
        (l b u j : ℕ)
        → j < 512
        → is_present (linked u j) ≡ true
        → is_block (suc l) (linked u j) ≡ false
        → IsFrom l b u j
        → IsAt grown l (b * 512 + j) (table_of (linked u j)) × (high_part (linked u j).bit ≡ 0)
    grown-child l b u j lt on table (old here eq) =
        let on' = sym (ap is_present eq) ∙ on in
        let table' = sym (ap (is_block (suc l)) eq) ∙ table in
        (
          subst (λ e. IsAt grown l (b * 512 + j) (table_of e)) (sym eq)
              (old-IsAt l (b * 512 + j) _ (tree.child l b u j here lt on' table')),
          ap (λ e. high_part e.bit) eq ∙ tree.plain l b u j here lt on' table',
        )
    grown-child l b u j lt on table (link level prefix place_i eq) = (
      subst (λ e. IsAt grown l (b * 512 + j) (table_of e)) (sym eq)
          (subst (λ c. IsAt grown l (b * 512 + j) c) (sym is_page)
            (subst (λ l. IsAt grown l (b * 512 + j) m) (sym level)
              (subst (λ q. IsAt grown n q m) (omega (arith, prefix, place_i)) new-IsAt))),
      ap (λ e. high_part e.bit) eq ∙ table_entry-high m flags,
    )
    grown-child l b u j lt on table (fresh level eq) = absurd (
        true-false (
          sym (fresh-block l j level (sym (ap is_present eq) ∙ on))
          ∙ sym (ap (is_block (suc l)) eq)
          ∙ table))

    grown-aligned :
        (l b u j : ℕ)
        → j < 512
        → is_present (linked u j) ≡ true
        → is_block (suc l) (linked u j) ≡ true
        → IsFrom l b u j
        → (linked u j).frame % span (suc l) ≡ 0
    grown-aligned l b u j lt on block (old here eq) =
        ap (λ e. e.frame % span (suc l)) eq
        ∙ tree.aligned l b u j here lt (sym (ap is_present eq) ∙ on)
            (sym (ap (is_block (suc l)) eq) ∙ block)
    grown-aligned l b u j lt on block (link level prefix place_i eq) =
        absurd
          (true-false (sym block ∙ ap (is_block (suc l)) eq ∙ table_entry-table (suc l) m flags))
    grown-aligned l b u j lt on block (fresh level eq) =
        ap (λ e. e.frame % span (suc l)) eq
        ∙ subst (λ n. (es j).frame % span n ≡ 0) level
            (content l j level (sym (ap is_present eq) ∙ on)).1

    pub grown-IsTree : IsTree grown linked root
    grown-IsTree = record {
      top = old-IsAt 3 0 root tree.top;
      child = λ l b u j here lt on table. (grown-child l b u j lt on table (from l b u j here)).0;
      plain = λ l b u j here lt on table. (grown-child l b u j lt on table (from l b u j here)).1;
      aligned = λ l b u j here lt on block. grown-aligned l b u j lt on block (from l b u j here);
    }

  entry_at : (q : ℕ) → index (suc n) q ≡ i → linked t (index (suc n) q) ≡ table_entry m flags
  entry_at q at_i = ap (λ j. linked t j) at_i ∙ linked-here

  new-page_of : page_of (table_entry m flags) ≡ m
  new-page_of = let high = table_entry-high m flags in omega (arith, high, is_page)

  -- The new table translates what the old entry did.
  pub grown-view :
      ((q : ℕ) → index (suc n) q ≡ i → view n linked m q ≡ view (suc n) mem t q)
      → (q : ℕ) → q < 2 ^ 36
      → view 3 linked root q ≡ view 3 mem root q
  unfolding view
  grown-view agrees q bound =
      same_view s mem root tree linked (suc n) a t i place linked-same q
        (λ prefix at_i.
          ap (λ e. through (suc n) e q (view n linked (page_of e) q)) (entry_at q at_i)
          ∙ through-table (suc n) (table_entry m flags) q _ refl (table_entry-table (suc n) m flags)
          ∙ ap (λ c. view n linked c q) new-page_of
          ∙ agrees q at_i)
        3 root (root-IsAt s mem root tree q bound)

  pub grown-IsRoute :
      (p : ℕ)
      → p < 2 ^ 36
      → index (suc n) p ≡ i
      → IsRoute mem root p (suc n) t
      → IsRoute linked root p n m
  grown-IsRoute p bound at_i r =
      let e = entry_at p at_i in
      subst (λ c. IsRoute linked root p n c) (ap table_of e ∙ is_page)
        (down
          (route-kept s mem root tree linked (suc n) a t i place linked-same p (suc n) t bound
            (omega arith) r)
          (ap is_present e) (ap (is_block (suc n)) e ∙ table_entry-table (suc n) m flags))
