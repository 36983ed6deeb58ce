-- ===== src/Heap/Fit.antt =====
-- What the first-fit loop of `kmalloc` in kernel/heap.c hands out.
use la_os.Common.{
  ℕ, ◌+◌, ◌-◌, ◌%◌, ◌≤◌, ◌≡◌, ◌≢◌, Bool, true, false, ◌&&◌, List, [], ◌∷◌, some, leb, arith, refl,
  inl, inr, Bool-cases, Option-cases, subst, subst₂,
}
use la_os.Heap.{Block, header, alignment, taken, first_fit}
use la_os.Heap.Tiled.{Tiled, Tiled-le, Tiled-used, live, Inserted, here, there}

-- A block at `a` of at least `needed` bytes has been taken out of a free one.
pub record Carved (f : Bool) (lo hi needed a : ℕ) (bs bs' : List Block) : Type 0 where
  pub size : ℕ
  pub enough : needed ≤ size
  pub above : lo ≤ a
  pub below : a + size ≤ hi
  pub aligned : a % alignment ≡ lo % alignment
  pub tiled : Tiled f lo bs' hi
  pub handed_out : Inserted (a, size) (live bs) (live bs')
  pub some_block : bs' ≢ []

module _ (needed id : ℕ) (least : header + alignment ≤ needed) (al : needed % alignment ≡ 0) where
  Carved-split :
      (f : Bool) (lo hi : ℕ) (b : Block) (bs : List Block)
      → Tiled f lo (b ∷ bs) hi
      → b.is_free ≡ true
      → header + alignment + needed ≤ b.size
      → Carved f lo hi needed
          (b.addr + (b.size - needed))
          (b ∷ bs)
          (record b { size = b.size - needed } ∷ taken (b.addr + (b.size - needed)) needed id ∷ bs)
  Carved-split f lo hi b bs (at, magic, least', al', apart, t) free room = record {
    size = needed;
    enough = omega arith;
    above = omega arith;
    below = omega (arith, Tiled-le b.is_free (lo + b.size) bs hi t);
    aligned = omega arith;
    tiled = (
      at,
      magic,
      omega arith,
      omega arith,
      apart,
      (omega arith, refl, least, al, ground arith, rest),
    );
    handed_out = rw free here;
    some_block = λ e. cc;
  }
    where
      rest : Tiled false (lo + (b.size - needed) + needed) bs hi
      rest =
          let sum : lo + b.size ≡ lo + (b.size - needed) + needed = omega arith in
          subst (λ x. Tiled false x bs hi) sum (Tiled-used b.is_free (lo + b.size) bs hi t)

  Carved-whole :
      (f : Bool) (lo hi : ℕ) (b : Block) (bs : List Block)
      → Tiled f lo (b ∷ bs) hi
      → b.is_free ≡ true
      → needed ≤ b.size
      → Carved f lo hi needed b.addr (b ∷ bs) (taken b.addr b.size id ∷ bs)
  Carved-whole f lo hi b bs (at, magic, least', al', apart, t) free room = record {
    size = b.size;
    enough = room;
    above = omega arith;
    below = omega (arith, Tiled-le b.is_free (lo + b.size) bs hi t);
    aligned = omega arith;
    tiled = (at, refl, least', al', ground arith, Tiled-used b.is_free (lo + b.size) bs hi t);
    handed_out = rw free here;
    some_block = λ e. cc;
  }

  Inserted-live :
      (b : Block) {x : ℕ × ℕ} (bs bs' : List Block)
      → Inserted x (live bs) (live bs')
      → Inserted x (live (b ∷ bs)) (live (b ∷ bs'))
  Inserted-live b bs bs' i = elim (Bool-cases b.is_free) [
    | inl free ↦ rw free i
    | inr used ↦ rw used (there i)
  ]

  Carved-cons :
      (f : Bool) (lo hi a : ℕ) (b : Block) (bs bs' : List Block)
      → Tiled f lo (b ∷ bs) hi
      → Carved b.is_free (lo + b.size) hi needed a bs bs'
      → Carved f lo hi needed a (b ∷ bs) (b ∷ bs')
  Carved-cons f lo hi a b bs bs' (at, magic, least', al', apart, t) c = record {
    size = c.size;
    enough = c.enough;
    above = omega (arith, c.above);
    below = c.below;
    aligned = omega (arith, c.aligned);
    tiled = (at, magic, least', al', apart, c.tiled);
    handed_out = Inserted-live b bs bs' c.handed_out;
    some_block = λ e. cc;
  }

  pub first_fit-Carved :
      (f : Bool) (lo hi a : ℕ) (bs bs' : List Block)
      → Tiled f lo bs hi
      → first_fit needed id bs ≡ some (a, bs')
      → Carved f lo hi needed a bs bs'
  unfolding first_fit
  first_fit-Carved f lo hi a [] bs' t e = absurd (ground arith)
  first_fit-Carved f lo hi a (b ∷ bs) bs' t e = elim (Bool-cases (b.is_free && leb needed b.size)) [
    | inl fits ↦ elim (Bool-cases (leb (header + alignment) (b.size - needed))) [
      | inl split ↦
          let at : b.addr + (b.size - needed) ≡ a = ground arith in
          let list : record b { size = b.size - needed }
                ∷ taken (b.addr + (b.size - needed)) needed id
                ∷ bs
              ≡ bs' =
            ground arith in
          subst₂ (λ x y. Carved f lo hi needed x (b ∷ bs) y) at list
            (Carved-split f lo hi b bs t (ground arith) (ground arith))
      | inr whole ↦
          let at : b.addr ≡ a = ground arith in
          let list : taken b.addr b.size id ∷ bs ≡ bs' = ground arith in
          subst₂ (λ x y. Carved f lo hi needed x (b ∷ bs) y) at list
            (Carved-whole f lo hi b bs t (ground arith) (ground arith))
    ]
    | inr skip ↦ elim (Option-cases (first_fit needed id bs)) [
      | inl nothing ↦ absurd (ground arith)
      | inr (r, found) ↦
          let at : r.0 ≡ a = ground arith in
          let list : b ∷ r.1 ≡ bs' = ground arith in
          subst₂ (λ x y. Carved f lo hi needed x (b ∷ bs) y) at list
            (Carved-cons f lo hi r.0 b bs r.1 t
              (first_fit-Carved b.is_free (lo + b.size) hi r.0 bs r.1 t.5 found))
    ]
  ]
