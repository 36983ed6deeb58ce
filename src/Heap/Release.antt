-- ===== src/Heap/Release.antt =====
-- What `kfree` of kernel/heap.c leaves of the heap, and when it panics.
use la_os.Common.{
  ℕ, ◌+◌, ◌%◌, ◌^◌, ◌≤◌, ◌<◌, ◌≡◌, ◌≢◌, Bool, true, false, List, [], ◌∷◌, ◌++◌, arith, refl, inl,
  inr, ◌==◌, Bool-cases, sym, subst, subst₂, add64, sub64,
}
use la_os.Heap.{
  Block, header, alignment, kheap_magic, Kheap, freed, double_free, next_joins, merge_next, release,
  free_from, kfree,
}
use la_os.Heap.Tiled.{Tiled, Tiled-le, live, Inserted, here, there, IsWf}

-- The blocks `bs'` tile the same memory, and the one at `a` is no longer handed out.
record Gone (f : Bool) (lo hi a n : ℕ) (bs bs' : List Block) : Type 0 where
  tiled : Tiled f lo bs' hi
  gone : Inserted (a, n) (live bs') (live bs)
  some_block : bs' ≢ []

cons-ne : (b : Block) (bs : List Block) → b ∷ bs ≢ []
cons-ne b bs e = cc

module _ (hi : ℕ) (fits : hi < 2 ^ 64) where
  -- The block `c` becomes free and takes in a free block behind it.
  merge_next-Tiled :
      (lo : ℕ) (f adj : Bool) (c : Block) (ys : List Block)
      → c.addr ≡ lo
      → c.magic ≡ kheap_magic
      → header + alignment ≤ c.size
      → c.size % alignment ≡ 0
      → (ys ≢ [] → adj ≡ true)
      → Tiled f (lo + c.size) ys hi
      → Tiled false lo (merge_next c adj ys) hi × (live (merge_next c adj ys) ≡ live ys)
  unfolding merge_next
  merge_next-Tiled lo f adj c [] at magic least al j t = ((at, magic, least, al, refl, t), refl)
  merge_next-Tiled lo f adj c (n ∷ ys) at magic least al j (at', magic', least', al', apart, t) =
      elim (Bool-cases n.is_free) [
        | inl free ↦
            let sum : lo + c.size + n.size ≡ lo + add64 c.size n.size =
              omega (arith, Tiled-le n.is_free (lo + c.size + n.size) ys hi t) in
            rw (free, j (cons-ne n ys), merge_next)
              (
                (
                  at,
                  magic,
                  omega arith,
                  omega arith,
                  refl,
                  subst₂ (λ g x. Tiled g x ys hi) free sum t,
                ),
                refl,
              )
        | inr used ↦
            rw (used, merge_next)
              ((at, magic, least, al, refl, (at', magic', least', al', refl, rw used at t)), refl)
      ]

  merge_next-ne : (c : Block) (adj : Bool) (ys : List Block) → merge_next c adj ys ≢ []
  unfolding merge_next
  merge_next-ne c adj [] e = cc
  merge_next-ne c adj (n ∷ ys) e = ground arith

  next_joins-true :
      (f : Bool) (lo : ℕ) (c : Block) (ys : List Block)
      → c.addr ≡ lo
      → Tiled f (lo + c.size) ys hi
      → ys ≢ []
      → next_joins c ys ≡ true
  next_joins-true f lo c [] at t ne = absurd (ne refl)
  next_joins-true f lo c (n ∷ ys) at (at', magic', least', al', apart, t) ne =
      ground (arith, Tiled-le n.is_free (lo + c.size + n.size) ys hi t)

  -- A block in use is freed behind another one, which is free or in use.
  release_free-Gone :
      (f : Bool) (lo : ℕ) (prev b : Block) (ys : List Block)
      → Tiled f lo (prev ∷ b ∷ ys) hi
      → b.is_free ≡ false
      → prev.is_free ≡ true
      → Gone f lo hi b.addr b.size
          (prev ∷ b ∷ ys)
          (merge_next (record prev { size = add64 prev.size b.size }) (next_joins b ys) ys)
  release_free-Gone f lo prev b ys
        (at, magic, least, al, apart, (at', magic', least', al', apart', t)) used free =
      let top = Tiled-le b.is_free (lo + prev.size + b.size) ys hi t in
      let sum : lo + prev.size + b.size ≡ lo + add64 prev.size b.size = omega arith in
      let (tiled, same) =
        merge_next-Tiled lo b.is_free (next_joins b ys)
          (record prev { size = add64 prev.size b.size }) ys at magic (omega arith) (omega arith)
          (next_joins-true b.is_free (lo + prev.size) b ys at' t)
          (subst (λ x. Tiled b.is_free x ys hi) sum t) in
      let first : false ≡ f = ground arith in
      record {
        tiled =
            subst
              (λ g.
                Tiled g lo
                  (merge_next (record prev { size = add64 prev.size b.size }) (next_joins b ys) ys)
                  hi)
              first tiled;
        gone = rw same (rw (free, used) here);
        some_block =
            merge_next-ne (record prev { size = add64 prev.size b.size }) (next_joins b ys) ys;
      }

  release_used-Gone :
      (f : Bool) (lo : ℕ) (prev b : Block) (ys : List Block)
      → Tiled f lo (prev ∷ b ∷ ys) hi
      → b.is_free ≡ false
      → prev.is_free ≡ false
      → Gone f lo hi b.addr b.size (prev ∷ b ∷ ys) (prev ∷ merge_next b (next_joins b ys) ys)
  release_used-Gone f lo prev b ys
        (at, magic, least, al, apart, (at', magic', least', al', apart', t)) used prev_used =
      let (tiled, same) =
        merge_next-Tiled (lo + prev.size) b.is_free (next_joins b ys) b ys at' magic' least' al'
          (next_joins-true b.is_free (lo + prev.size) b ys at' t) t in
      record {
        tiled = (
          at,
          magic,
          least,
          al,
          apart,
          subst (λ g. Tiled g (lo + prev.size) (merge_next b (next_joins b ys) ys) hi)
              (sym prev_used) tiled,
        );
        gone = rw same (rw (prev_used, used) (there here));
        some_block = cons-ne prev (merge_next b (next_joins b ys) ys);
      }

  release-Gone :
      (f : Bool) (lo : ℕ) (prev b : Block) (ys : List Block)
      → Tiled f lo (prev ∷ b ∷ ys) hi
      → b.is_free ≡ false
      → (bs : List Block) × (release prev b ys ≡ freed bs)
        × Gone f lo hi b.addr b.size (prev ∷ b ∷ ys) bs
  unfolding release
  release-Gone f lo prev b ys t used = elim (Bool-cases prev.is_free) [
    | inl free ↦ (
      merge_next (record prev { size = add64 prev.size b.size }) (next_joins b ys) ys,
      ground (arith, Tiled-le b.is_free (lo + prev.size + b.size) ys hi t.5.5),
      release_free-Gone f lo prev b ys t used free,
    )
    | inr prev_used ↦ (
      prev ∷ merge_next b (next_joins b ys) ys,
      ground arith,
      release_used-Gone f lo prev b ys t used prev_used,
    )
  ]

  -- A block in use is freed behind the head of the list.
  release_first-Gone :
      (lo : ℕ) (head b : Block) (ys : List Block)
      → head.is_free ≡ false
      → Tiled false lo (b ∷ ys) hi
      → b.is_free ≡ false
      → (bs : List Block) × (release head b ys ≡ freed (head ∷ bs))
        × Gone false lo hi b.addr b.size (b ∷ ys) bs
  unfolding release
  release_first-Gone lo head b ys head_used (at, magic, least, al, apart, t) used =
      let (tiled, same) =
        merge_next-Tiled lo b.is_free (next_joins b ys) b ys at magic least al
          (next_joins-true b.is_free lo b ys at t) t in
      (
        merge_next b (next_joins b ys) ys,
        ground arith,
        record {
          tiled = tiled;
          gone = rw same (rw used here);
          some_block = merge_next-ne b (next_joins b ys) ys;
        },
      )

  Tiled-below :
      (f : Bool) (lo : ℕ) (xs : List Block) (b : Block) (ys : List Block)
      → Tiled f lo (xs ++ b ∷ ys) hi
      → lo ≤ b.addr
  Tiled-below f lo [] b ys t = omega (arith, t.0)
  Tiled-below f lo (x ∷ xs) b ys t = omega (arith, Tiled-below x.is_free (lo + x.size) xs b ys t.5)

  -- The search for the header passes over the blocks `xs` before it.
  passes :
      (x b : Block) (lo : ℕ)
      → x.addr ≡ lo
      → lo + x.size ≤ b.addr
      → header + alignment ≤ x.size
      → (x.addr == b.addr) ≡ false
  passes x b lo at le least = ground arith

  free_from-Gone :
      (f : Bool) (lo : ℕ) (prev : Block) (xs : List Block) (b : Block) (ys : List Block)
      → Tiled f lo (prev ∷ (xs ++ b ∷ ys)) hi
      → b.is_free ≡ false
      → (bs : List Block) × (free_from b.addr prev (xs ++ b ∷ ys) ≡ freed bs)
        × Gone f lo hi b.addr b.size (prev ∷ (xs ++ b ∷ ys)) bs
  unfolding free_from
  free_from-Gone f lo prev [] b ys t used =
      let (bs, ran, g) = release-Gone f lo prev b ys t used in (bs, ground arith, g)
  free_from-Gone f lo prev (x ∷ xs) b ys (at, magic, least, al, apart, t) used =
      let (bs, ran, g) = free_from-Gone prev.is_free (lo + prev.size) x xs b ys t used in
      let pass =
        passes x b (lo + prev.size) t.0
          (Tiled-below x.is_free (lo + prev.size + x.size) xs b ys t.5) t.2 in
      (
        prev ∷ bs,
        rw (pass, ran),
        record {
          tiled = (at, magic, least, al, apart, g.tiled);
          gone = live_gone bs g.gone;
          some_block = cons-ne prev bs;
        },
      )
    where
      live_gone :
          (bs : List Block)
          → Inserted (b.addr, b.size) (live bs) (live (x ∷ (xs ++ b ∷ ys)))
          → Inserted (b.addr, b.size) (live (prev ∷ bs)) (live (prev ∷ x ∷ (xs ++ b ∷ ys)))
      live_gone bs i = elim (Bool-cases prev.is_free) [
        | inl free ↦ rw free i
        | inr in_use ↦ rw in_use (there i)
      ]

  free_from-double :
      (f : Bool) (lo : ℕ) (prev : Block) (xs : List Block) (b : Block) (ys : List Block)
      → Tiled f lo (xs ++ b ∷ ys) hi
      → b.is_free ≡ true
      → free_from b.addr prev (xs ++ b ∷ ys) ≡ double_free
  unfolding free_from release
  free_from-double f lo prev [] b ys t free = ground arith
  free_from-double f lo prev (x ∷ xs) b ys t free =
      let pass = passes x b lo t.0 (Tiled-below x.is_free (lo + x.size) xs b ys t.5) t.2 in
      rw (pass, free_from-double x.is_free (lo + x.size) x xs b ys t.5 free)

  -- The block that is freed stands anywhere in the list, behind the head.
  free_first-Gone :
      (lo : ℕ) (head : Block) (xs : List Block) (b : Block) (ys : List Block)
      → head.is_free ≡ false
      → Tiled false lo (xs ++ b ∷ ys) hi
      → b.is_free ≡ false
      → (bs : List Block) × (free_from b.addr head (xs ++ b ∷ ys) ≡ freed (head ∷ bs))
        × Gone false lo hi b.addr b.size (xs ++ b ∷ ys) bs
  unfolding free_from
  free_first-Gone lo head [] b ys head_used t used =
      let (bs, ran, g) = release_first-Gone lo head b ys head_used t used in (bs, ground arith, g)
  free_first-Gone lo head (x ∷ xs) b ys head_used t used =
      let (bs, ran, g) = free_from-Gone false lo x xs b ys t used in
      let pass = passes x b lo t.0 (Tiled-below x.is_free (lo + x.size) xs b ys t.5) t.2 in
      (bs, rw (pass, ran), g)

Tiled-room :
    (hi : ℕ) (f : Bool) (lo : ℕ) (xs : List Block) (b : Block) (ys : List Block)
    → Tiled f lo (xs ++ b ∷ ys) hi
    → b.addr + header < hi
Tiled-room hi f lo [] b ys t = omega (arith, Tiled-le b.is_free (lo + b.size) ys hi t.5)
Tiled-room hi f lo (x ∷ xs) b ys t = Tiled-room hi x.is_free (lo + x.size) xs b ys t.5

-- `kfree` of the payload of any block of the heap: if the block is in use, the call returns, keeps
-- the invariant (so free neighbours are joined), and just this block is no longer handed out; if it
-- is free, the call panics as a double free.
pub kfree-Returns :
    (h : Kheap) (xs : List Block) (b : Block) (ys : List Block)
    → IsWf h
    → h.blocks ≡ xs ++ b ∷ ys
    → (b.is_free ≡ false
        → (h' : Kheap) × (kfree h (b.addr + header) ≡ inr h')
          × IsWf h'
          × Inserted (b.addr, b.size) (live h'.blocks) (live h.blocks))
      × (b.is_free ≡ true → kfree h (b.addr + header) ≡ inl double_free)
unfolding kfree
kfree-Returns h xs b ys wf at =
    (λ used. freed_now used, λ free. rw (back, at) (ground (arith, twice free)))
  where
    top : wf.last < 2 ^ 64
    top = omega (arith, wf.mapped, wf.below, wf.fits)

    tiled : Tiled false h.base (xs ++ b ∷ ys) wf.last
    tiled = rw at at wf.tiled

    back : sub64 (b.addr + header) header ≡ b.addr
    back = omega (arith, Tiled-room wf.last false h.base xs b ys tiled)

    twice : b.is_free ≡ true → free_from b.addr h.head (xs ++ b ∷ ys) ≡ double_free
    twice = free_from-double wf.last top false h.base h.head xs b ys tiled

    freed_now :
        b.is_free ≡ false
        → (h' : Kheap) × (kfree h (b.addr + header) ≡ inr h')
          × IsWf h'
          × Inserted (b.addr, b.size) (live h'.blocks) (live h.blocks)
    freed_now used =
        let (bs, ran, g) =
          free_first-Gone wf.last top h.base h.head xs b ys wf.head_used tiled used in
        (
          record h { blocks = bs },
          rw (back, at) (ground (arith, ran)),
          record {
            based = wf.based;
            fits = wf.fits;
            pages = wf.pages;
            below = wf.below;
            last = wf.last;
            mapped = wf.mapped;
            tiled = g.tiled;
            some_block = g.some_block;
            head_used = wf.head_used;
          },
          rw at g.gone,
        )
