-- ===== src/Heap/Cycle.antt =====
-- A block that `kmalloc` of kernel/heap.c hands out, given back by `kfree`.
use la_os.Common.{
  ℕ, ◌+◌, ◌≤◌, ◌≡◌, ◌≢◌, ◌⊎◌, inl, inr, Bool, false, List, [], ◌∷◌, ◌++◌, arith, refl, ap,
  Bool-cases, ok,
}
use la_os.Heap.{Block, Kheap, Backing, header, kmalloc, kfree}
use la_os.Heap.Tiled.{Tiled, live, Inserted, here, there, IsWf}
use la_os.Heap.Alloc.{Payload, kmalloc-Returns}
use la_os.Heap.Release.{kfree-Returns}

-- Addresses rise along the list, from `lo` on.
abbrev Rising : ℕ → List (ℕ × ℕ) → Type 0
Rising lo [] = Unit {0}
Rising lo (x ∷ xs) = (lo ≤ x.0) × Rising (x.0 + 1) xs

Rising-le : (lo mid : ℕ) (xs : List (ℕ × ℕ)) → lo ≤ mid → Rising mid xs → Rising lo xs
Rising-le lo mid [] le r = tt
Rising-le lo mid (x ∷ xs) le r = (omega arith, r.1)

live-Rising :
    (f : Bool) (lo : ℕ) (bs : List Block) (hi : ℕ) → Tiled f lo bs hi → Rising lo (live bs)
live-Rising f lo [] hi t = tt
live-Rising f lo (b ∷ bs) hi (at, magic, least, al, apart, t) = elim (Bool-cases b.is_free) [
  | inl free ↦ rw free (
      Rising-le lo (lo + b.size) (live bs) (omega arith)
        (live-Rising b.is_free (lo + b.size) bs hi t))
  | inr used ↦ rw used (
    omega arith,
    Rising-le (b.addr + 1) (lo + b.size) (live bs) (omega arith)
        (live-Rising b.is_free (lo + b.size) bs hi t),
  )
]

Inserted-above :
    {x : ℕ × ℕ} (lo : ℕ) {xs ys : List (ℕ × ℕ)} → Inserted x xs ys → Rising lo ys → lo ≤ x.0
Inserted-above lo here r = r.0
Inserted-above lo (there {y} i) r = omega (arith, Inserted-above (y.0 + 1) i r.1)

-- The other items are determined by the list and the item that was put in.
abbrev Rest : (x : ℕ × ℕ) (xs ys : List (ℕ × ℕ)) → Type 0
Rest x [] ys = ⊥
Rest x (z ∷ zs) ys =
    ((z ≡ x) × (zs ≡ ys)) ⊎ ((us : List (ℕ × ℕ)) × (ys ≡ z ∷ us) × Inserted x us zs)

Inserted-Rest : {x : ℕ × ℕ} {ys xs : List (ℕ × ℕ)} → Inserted x ys xs → Rest x xs ys
Inserted-Rest here = inl (refl, refl)
Inserted-Rest (there {xs = us} i) = inr (us, refl, i)

Inserted-unique :
    (lo : ℕ) (x : ℕ × ℕ) (ms ys zs : List (ℕ × ℕ))
    → Rising lo ms
    → Inserted x ys ms
    → Inserted x zs ms
    → ys ≡ zs
Inserted-unique lo x [] ys zs r i j = absurd (Inserted-Rest i)
Inserted-unique lo x (m ∷ ms) ys zs r i j =
    go (λ us vs. Inserted-unique (m.0 + 1) x ms us vs r.1) (Inserted-Rest i) (Inserted-Rest j)
  where
    go :
        ((us vs : List (ℕ × ℕ)) → Inserted x us ms → Inserted x vs ms → us ≡ vs)
        → Rest x (m ∷ ms) ys
        → Rest x (m ∷ ms) zs
        → ys ≡ zs
    go ih (inl (e, f)) (inl (e', f')) = cc
    go ih (inl (e, f)) (inr (us, f', j')) =
        absurd (omega (arith, Inserted-above (m.0 + 1) j' r.1, ap (λ (p : ℕ × ℕ). p.0) e))
    go ih (inr (us, f, i')) (inl (e', f')) =
        absurd (omega (arith, Inserted-above (m.0 + 1) i' r.1, ap (λ (p : ℕ × ℕ). p.0) e'))
    go ih (inr (us, f, i')) (inr (vs, f', j')) = let same : us ≡ vs = ih us vs i' j' in cc

-- An item of `live` is a block in use.
find_live :
    (bs : List Block) (x : ℕ × ℕ) (xs : List (ℕ × ℕ))
    → Inserted x xs (live bs)
    → (pre : List Block) × (b : Block) × (post : List Block) × (bs ≡ pre ++ b ∷ post)
      × (b.is_free ≡ false)
      × ((b.addr, b.size) ≡ x)
find_live [] x xs i = absurd (Inserted-Rest i)
find_live (b ∷ bs) x xs i = elim (Bool-cases b.is_free) [
  | inl free ↦
      let (pre, c, post, at, used, same) = find_live bs x xs (rw free at i) in
      (b ∷ pre, c, post, ap (λ cs. b ∷ cs) at, used, same)
  | inr in_use ↦ elim (Inserted-Rest (rw in_use at i)) [
    | inl (e, _) ↦ ([], b, bs, refl, in_use, e)
    | inr (us, _, j) ↦
        let (pre, c, post, at, used, same) = find_live bs x us j in
        (b ∷ pre, c, post, ap (λ cs. b ∷ cs) at, used, same)
  ]
]

-- A payload that `kmalloc` returns can be given back at once: `kfree` returns, keeps the invariant,
-- and the same blocks are handed out as before the allocation.
pub kmalloc-kfree :
    {W : Type 0} (k : Backing W) (h h' : Kheap) (w w' : W) (size id ptr : ℕ)
    → IsWf h
    → kmalloc k h w size id ≡ ok (ptr, h', w')
    → ptr ≢ 0
    → (h'' : Kheap) × (kfree h' ptr ≡ inr h'') × IsWf h'' × (live h''.blocks ≡ live h.blocks)
kmalloc-kfree k h h' w w' size id ptr wf ran ne =
    let (wf', r) = kmalloc-Returns k h h' wf w w' ptr size id ran in undo wf' r
  where
    undo :
        IsWf h'
        → ((ptr ≡ 0) × (h'.blocks ≡ h.blocks)) ⊎ Payload h h' size ptr
        → (h'' : Kheap) × (kfree h' ptr ≡ inr h'') × IsWf h'' × (live h''.blocks ≡ live h.blocks)
    undo wf' (inl (e, _)) = absurd (ne e)
    undo wf' (inr p) =
        let (pre, b, post, at, used, same) =
          find_live h'.blocks (p.addr, p.bytes) (live h.blocks) p.handed_out in
        let (h'', freed, wf'', gone) = (kfree-Returns h' pre b post wf' at).0 used in
        let behind : b.addr + header ≡ ptr =
          omega (arith, p.behind_header, ap (λ (x : ℕ × ℕ). x.0) same) in
        (
          h'',
          rw behind at freed,
          wf'',
          Inserted-unique h'.base (p.addr, p.bytes) (live h'.blocks) (live h''.blocks)
              (live h.blocks) (live-Rising false h'.base h'.blocks wf'.last wf'.tiled)
              (rw same at gone) p.handed_out,
        )
