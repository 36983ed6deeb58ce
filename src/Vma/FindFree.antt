-- ===== src/Vma/FindFree.antt =====
-- What `vma_find_free` of kernel/vma.c returns.
use la_os.Common.{
  ℕ, ◌+◌, ◌^◌, ◌≤◌, ◌<◌, ◌≡◌, ◌≢◌, true, false, ◌&&◌, Bool-cases, inl, inr, List, [], ◌∷◌, arith,
  ltb, leb, some, add64, subst, sym, ◌∙◌,
}
use la_os.Vma.{
  Vma, user_mmap_base, user_mmap_end, page_length, find_free_loop, vma_find_free, vma_alloc,
}
use la_os.Vma.Order.{Apart, Clear, insert-Apart}

-- All regions end below `hi`.
abbrev pub EndBelow : ℕ → List Vma → Type 0
EndBelow hi [] = Unit {0}
EndBelow hi (u ∷ us) = (u.end < hi) × EndBelow hi us

Apart-Clear : (start end lo : ℕ) (us : List Vma) → Apart lo us → end ≤ lo → Clear start end us
Apart-Clear start end lo [] a le = tt
Apart-Clear start end lo (u ∷ us) a le =
    (inl (omega (arith, a.0)), Apart-Clear start end u.end us a.2 (omega (arith, a.0, a.1)))

-- `length` bytes at `r` are free, and `r` is not below `lo`.
abbrev pub IsRoom : (length lo : ℕ) → List Vma → (r : ℕ) → Type 0
IsRoom length lo us r = (lo ≤ r) × Clear r (r + length) us

find_free_loop-fits :
    (length cursor : ℕ) (u : Vma) (us : List Vma)
    → (leb (add64 cursor length) u.start && ltb cursor user_mmap_end) ≡ true
    → find_free_loop length cursor (u ∷ us) ≡ cursor
unfolding find_free_loop
find_free_loop-fits length cursor u us fits = rw fits

find_free_loop-over :
    (length cursor : ℕ) (u : Vma) (us : List Vma)
    → (leb (add64 cursor length) u.start && ltb cursor user_mmap_end) ≡ false
    → leb user_mmap_end u.end ≡ true
    → find_free_loop length cursor (u ∷ us) ≡ 0
unfolding find_free_loop
find_free_loop-over length cursor u us no_room over = rw (no_room, over)

find_free_loop-next :
    (length cursor : ℕ) (u : Vma) (us : List Vma)
    → (leb (add64 cursor length) u.start && ltb cursor user_mmap_end) ≡ false
    → leb user_mmap_end u.end ≡ false
    → find_free_loop length cursor (u ∷ us) ≡ find_free_loop length u.end us
unfolding find_free_loop
find_free_loop-next length cursor u us no_room below = rw (no_room, below)

find_free_loop-last :
    (length cursor : ℕ)
    → find_free_loop length cursor [] ≢ 0
    → cursor ≤ find_free_loop length cursor []
unfolding find_free_loop
find_free_loop-last length cursor ne = ground arith

find_free_loop-IsRoom :
    (length lo cursor : ℕ) (us : List Vma)
    → length < 2 ^ 63
    → cursor < 2 ^ 63
    → lo ≤ cursor
    → Apart lo us
    → EndBelow (2 ^ 63) us
    → find_free_loop length cursor us ≢ 0
    → IsRoom length lo us (find_free_loop length cursor us)
find_free_loop-IsRoom length lo cursor [] small c le a e ne =
    (omega (arith, find_free_loop-last length cursor ne), tt)
find_free_loop-IsRoom length lo cursor (u ∷ us) small c le a e ne =
    elim (Bool-cases (leb (add64 cursor length) u.start && ltb cursor user_mmap_end)) [
      | inl fits ↦
          subst (IsRoom length lo (u ∷ us)) (sym (find_free_loop-fits length cursor u us fits)) (
            le,
            (
              inl (ground arith),
              Apart-Clear cursor (cursor + length) u.end us a.2 (ground (arith, a.0, a.1)),
            ),
          )
      | inr no_room ↦ elim (Bool-cases (leb user_mmap_end u.end)) [
        | inl over ↦ absurd (ne (find_free_loop-over length cursor u us no_room over))
        | inr below ↦
            let eq = find_free_loop-next length cursor u us no_room below in
            let (past, clear) =
              find_free_loop-IsRoom length u.end u.end us small e.0 (omega arith) a.2 e.1
                (λ z. ne (eq ∙ z)) in
            subst (IsRoom length lo (u ∷ us)) (sym eq)
              (omega (arith, past, a.0, a.1), (inr past, clear))
      ]
    ]

-- Where no region ends behind the mapping area, the bytes lie in the area.
find_free_loop-within :
    (length lo cursor : ℕ) (us : List Vma)
    → length < 2 ^ 63
    → cursor ≤ user_mmap_end
    → Apart lo us
    → EndBelow (user_mmap_end + 1) us
    → find_free_loop length cursor us ≢ 0
    → find_free_loop length cursor us + length ≤ user_mmap_end
unfolding find_free_loop
find_free_loop-within length lo cursor [] small c a e ne = ground arith
find_free_loop-within length lo cursor (u ∷ us) small c a e ne =
    elim (Bool-cases (leb (add64 cursor length) u.start && ltb cursor user_mmap_end)) [
      | inl fits ↦
          subst (λ r. r + length ≤ user_mmap_end)
            (sym (find_free_loop-fits length cursor u us fits)) (ground (arith, a.1, e.0))
      | inr no_room ↦ elim (Bool-cases (leb user_mmap_end u.end)) [
        | inl over ↦ absurd (ne (find_free_loop-over length cursor u us no_room over))
        | inr below ↦
            let eq = find_free_loop-next length cursor u us no_room below in
            subst (λ r. r + length ≤ user_mmap_end) (sym eq)
              (find_free_loop-within length u.end u.end us small (omega (arith, e.0)) a.2 e.1
                (λ z. ne (eq ∙ z)))
      ]
    ]

pub vma_find_free-within :
    (lo length : ℕ) (us : List Vma)
    → length < 2 ^ 62
    → Apart lo us
    → EndBelow (user_mmap_end + 1) us
    → vma_find_free (some us) length ≢ 0
    → vma_find_free (some us) length + page_length length ≤ user_mmap_end
unfolding vma_find_free
vma_find_free-within lo length us small a e ne =
    find_free_loop-within (page_length length) lo user_mmap_base us (ground arith) (omega arith) a e
      (λ z. ne (ground (arith, z)))

pub EndBelow-wider : (hi hi' : ℕ) (us : List Vma) → hi ≤ hi' → EndBelow hi us → EndBelow hi' us
EndBelow-wider hi hi' [] le e = tt
EndBelow-wider hi hi' (u ∷ us) le e = (omega (arith, le, e.0), EndBelow-wider hi hi' us le e.1)

-- What a result other than 0 promises: the pages are free, and a region of them can be added.
abbrev pub IsFound : (lo length : ℕ) → List Vma → (r : ℕ) → Type 0
IsFound lo length us r =
    IsRoom (page_length length) lo us r
    × ((prot flags : ℕ) → Apart lo (vma_alloc true us r (r + page_length length) prot flags).1)

-- Let the list of the current thread be in order from an address `lo` that is not above the base
-- of the mapping area, with all regions ending below 2 ^ 63, and let `length` be above 0 and below
-- 2 ^ 62. A result of `vma_find_free` other than 0 is then the start of `length` bytes, rounded up
-- to pages, that overlap no region, and the list stays in order when `vma_alloc` adds them as a
-- region.
pub vma_find_free-IsFound :
    (lo length : ℕ) (us : List Vma)
    → 0 < length
    → length < 2 ^ 62
    → lo ≤ user_mmap_base
    → Apart lo us
    → EndBelow (2 ^ 63) us
    → vma_find_free (some us) length ≢ 0
    → IsFound lo length us (vma_find_free (some us) length)
unfolding vma_find_free vma_alloc
vma_find_free-IsFound lo length us pos small le a e ne =
    let room =
      find_free_loop-IsRoom (page_length length) lo user_mmap_base us (ground arith) (ground arith)
        le a e ne in
    (room, λ prot flags. insert-Apart lo _ us a room.0 (ground arith) room.1)
