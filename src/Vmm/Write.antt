-- ===== src/Vmm/Write.antt =====
-- What a write of a page's entry does to the translation of kernel/vmm.c.
use la_os.Common.{
  ℕ, suc, ◌+◌, ◌*◌, ◌%◌, ◌^◌, ◌<◌, ◌≡◌, ◌≢◌, sym, ap, subst, ◌∙◌, true, none, some, arith,
  if◌then◌else◌,
}
use la_os.Vmm.{Entry, Memory, Vmm, is_present, high_part, table_of, page_of, write}
use la_os.Vmm.View.{above, index, span, is_block, view, write-here, write-there}
use la_os.Vmm.Tree.{IsAt, IsTree, IsRoute, route-IsAt, route-view, root-IsAt}
use la_os.Vmm.Tree.Change.{same_view, route-kept}
use la_os.Vmm.Enter.{IsValid}

-- The entry of a page at the last level is written.
module _ (v : Vmm) (root p pt : ℕ) (valid : IsValid v root) (bound : p < 2 ^ 36)
    (r : IsRoute v.mem root p 0 pt) (e : Entry) where
  abbrev pub written : Memory
  written = write v.mem pt (index 0 p) e

  place : IsAt valid.places 0 (above 1 p) pt
  place = route-IsAt valid.places v.mem root valid.tree p 0 pt bound r

  above-same : (l b u j : ℕ) → IsAt valid.places (suc l) b u → written u j ≡ v.mem u j
  above-same l b u j here = write-there v.mem pt (index 0 p) u j e (λ eq. absurd (
      let level = sym here.has_level ∙ ap valid.places.level eq ∙ place.has_level in
      omega (arith, level)))

  pub written-IsTree : IsTree valid.places written root
  written-IsTree = record {
    top = valid.tree.top;
    child = λ l b u j here lt on table.
        let eq = above-same l b u j here in
        subst (λ e. IsAt valid.places l (b * 512 + j) (table_of e)) (sym eq)
          (valid.tree.child l b u j here lt (sym (ap is_present eq) ∙ on)
            (sym (ap (is_block (suc l)) eq) ∙ table));
    plain = λ l b u j here lt on table.
        let eq = above-same l b u j here in
        ap (λ e. high_part e.bit) eq
        ∙ valid.tree.plain l b u j here lt (sym (ap is_present eq) ∙ on)
            (sym (ap (is_block (suc l)) eq) ∙ table);
    aligned = λ l b u j here lt on block.
        let eq = above-same l b u j here in
        ap (λ e. e.frame % span (suc l)) eq
        ∙ valid.tree.aligned l b u j here lt (sym (ap is_present eq) ∙ on)
            (sym (ap (is_block (suc l)) eq) ∙ block);
  }

  entry-same :
      (u j : ℕ) → valid.places.used u ≡ true → (u ≡ pt → j ≢ index 0 p) → written u j ≡ v.mem u j
  entry-same u j on off = write-there v.mem pt (index 0 p) u j e off

  -- The page is translated by the entry,
  pub written-view :
      view 3 written root p ≡ (if is_present e then some (page_of e, e.bit) else none)
  unfolding view
  written-view =
      route-view valid.places written root written-IsTree p 0 pt bound (
        route-kept valid.places v.mem root valid.tree written 0 (above 1 p) pt (index 0 p) place
          entry-same p 0 pt bound (omega arith) r)
      ∙ ap (λ e. if is_present e then some (page_of e, e.bit) else none)
          (write-here v.mem pt (index 0 p) e)

  -- and every other one as before.
  pub written-other : (q : ℕ) → q < 2 ^ 36 → q ≢ p → view 3 written root q ≡ view 3 v.mem root q
  written-other q in_range other =
      same_view valid.places v.mem root valid.tree written 0 (above 1 p) pt (index 0 p) place
        entry-same q (λ prefix at_index. absurd (other (omega (arith, prefix, at_index)))) 3 root
        (root-IsAt valid.places v.mem root valid.tree q in_range)
