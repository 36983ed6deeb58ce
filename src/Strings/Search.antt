-- ===== src/Strings/Search.antt =====
-- `strstr` of kernel/string.c.
use la_os.Common.{
  ℕ, zero, suc, ◌+◌, ◌≤◌, ◌<◌, ◌≡◌, ◌≢◌, sym, ap, subst, ◌∙◌, Bool, true, false, not, ◌&&◌, ◌==◌,
  Option, none, some, if-true, if-false, if-both, Bool-cases, inl, inr, arith,
}
use la_os.Strings.{Bytes, match_at, match_or, search_loop, strstr}

-- A string of `n` characters.
pub record HasLength (mem : Bytes) (s n : ℕ) : Type 0 where
  pub end : mem (s + n) ≡ 0
  pub inside : (k : ℕ) → k < n → mem (s + k) ≢ 0

HasLength-next : (mem : Bytes) (s n : ℕ) → HasLength mem s (suc n) → HasLength mem (s + 1) n
HasLength-next mem s n h = record {
  end = ap mem {x = s + 1 + n} {y = s + suc n} (omega arith) ∙ h.end;
  inside = λ k lt z.
      h.inside (suc k) (omega (arith, lt))
        (ap mem {x = s + suc k} {y = s + 1 + k} (omega arith) ∙ z);
}

-- The `n` characters of `needle` stand at `h`.
abbrev pub StandsAt : Bytes → (needle n h : ℕ) → Type 0
StandsAt mem needle n h = (k : ℕ) → k < n → mem (h + k) ≡ mem (needle + k)

data IsMatched (mem : Bytes) (needle n h : ℕ) : Option Bool → Type 0 where
  stands : StandsAt mem needle n h → IsMatched mem needle n h (some true)
  differs : (k : ℕ) → k < n → mem (h + k) ≢ mem (needle + k) → IsMatched mem needle n h (some false)

IsMatched-next :
    (mem : Bytes) (needle n h : ℕ) (r : Option Bool)
    → mem h ≡ mem needle
    → IsMatched mem (needle + 1) n (h + 1) r
    → IsMatched mem needle (suc n) h r
IsMatched-next mem needle n h r first (stands all) = stands (λ k lt. stands-next k lt)
  where
    stands-next : (k : ℕ) → k < suc n → mem (h + k) ≡ mem (needle + k)
    stands-next zero lt =
        ap mem {x = h + 0} {y = h} (omega arith)
        ∙ first
        ∙ ap mem {x = needle} {y = needle + 0} (omega arith)
    stands-next (suc k) lt =
        ap mem {x = h + suc k} {y = h + 1 + k} (omega arith)
        ∙ all k (omega (arith, lt))
        ∙ ap mem {x = needle + 1 + k} {y = needle + suc k} (omega arith)
IsMatched-next mem needle n h r first (differs k lt ne) = differs (suc k) (omega (arith, lt)) (λ e.
    ne (
      ap mem {x = h + 1 + k} {y = h + suc k} (omega arith)
      ∙ e
      ∙ ap mem {x = needle + suc k} {y = needle + 1 + k} (omega arith)))

match_at-IsMatched :
    (rounds : ℕ) (mem : Bytes) (h needle n : ℕ)
    → n < rounds
    → HasLength mem needle n
    → IsMatched mem needle n h (match_at rounds mem h needle)
unfolding match_at
match_at-IsMatched zero mem h needle n lt len = absurd (omega (arith, lt))
match_at-IsMatched (suc rounds) mem h needle zero lt len =
    let end : mem needle ≡ 0 = ap mem {x = needle} {y = needle + 0} (omega arith) ∙ len.end in
    let at_end : (mem needle == 0) ≡ true = ground (arith, end) in
    let stops =
      if-false (not (mem h == 0) && not (mem needle == 0) && (mem h == mem needle))
        (match_at rounds mem (h + 1) (needle + 1)) (some (mem needle == 0)) (ground (arith, end)) in
    subst (IsMatched mem needle 0 h) (sym (stops ∙ ap some at_end))
      (stands (λ k lt. absurd (omega (arith, lt))))
match_at-IsMatched (suc rounds) mem h needle (suc n) lt len =
    let more : mem needle ≢ 0 =
      λ z. len.inside 0 (omega arith) (ap mem {x = needle + 0} {y = needle} (omega arith) ∙ z) in
    if-both (IsMatched mem needle (suc n) h)
      (not (mem h == 0) && not (mem needle == 0) && (mem h == mem needle))
      (match_at rounds mem (h + 1) (needle + 1)) (some (mem needle == 0))
      (λ on. IsMatched-next mem needle n h _ (ground (arith, on)) (
        match_at-IsMatched rounds mem (h + 1) (needle + 1) n (omega (arith, lt))
          (HasLength-next mem needle n len)))
      (λ off.
        subst (λ b. IsMatched mem needle (suc n) h (some b)) (sym (ground (arith, more)))
          (differs 0 (omega arith) (λ e.
            let e' =
              ap mem {x = h} {y = h + 0} (omega arith)
              ∙ e
              ∙ ap mem {x = needle + 0} {y = needle} (omega arith) in
            ground (arith, off, more, e'))))

-- The result for a haystack of `a` characters.
pub data IsFirstMatch (mem : Bytes) (haystack a needle n : ℕ) : Option ℕ → Type 0 where
  nowhere :
      ((k : ℕ) → k < a → StandsAt mem needle n (haystack + k) → ⊥)
      → IsFirstMatch mem haystack a needle n none
  first :
      (k : ℕ)
      → k ≤ a
      → StandsAt mem needle n (haystack + k)
      → ((j : ℕ) → j < k → StandsAt mem needle n (haystack + j) → ⊥)
      → IsFirstMatch mem haystack a needle n (some (haystack + k))

-- A loop that has come to an end.
pub data IsSearched (mem : Bytes) (haystack a needle n : ℕ) : Option (Option ℕ) → Type 0 where
  searched :
      {r : Option ℕ}
      → IsFirstMatch mem haystack a needle n r
      → IsSearched mem haystack a needle n (some r)

module _ (mem : Bytes) (needle n : ℕ) where
  shift : (h j : ℕ) → StandsAt mem needle n (h + suc j) → StandsAt mem needle n (h + 1 + j)
  shift h j = subst (StandsAt mem needle n) (omega arith)

  first-next :
      (h a : ℕ) (r : Option ℕ)
      → (StandsAt mem needle n h → ⊥)
      → IsFirstMatch mem (h + 1) a needle n r
      → IsFirstMatch mem h (suc a) needle n r
  first-next h a r miss (nowhere none_at) = nowhere (λ k lt. none_before h a miss none_at k lt)
    where
      none_before :
          (h a : ℕ)
          → (StandsAt mem needle n h → ⊥)
          → ((k : ℕ) → k < a → StandsAt mem needle n (h + 1 + k) → ⊥)
          → (k : ℕ) → k < suc a
          → StandsAt mem needle n (h + k)
          → ⊥
      none_before h a miss none_at zero lt at =
          miss (subst (StandsAt mem needle n) (omega arith) at)
      none_before h a miss none_at (suc k) lt at =
          none_at k (omega (arith, lt)) (subst (StandsAt mem needle n) (omega arith) at)
  first-next h a r miss (first k le at none_before) =
      subst (λ p. IsFirstMatch mem h (suc a) needle n (some p)) {x = h + suc k} {y = h + 1 + k}
        (omega arith)
        (first (suc k) (omega (arith, le)) (subst (StandsAt mem needle n) (omega arith) at)
          (λ j lt at_j. before h k miss none_before j lt at_j))
    where
      before :
          (h k : ℕ)
          → (StandsAt mem needle n h → ⊥)
          → ((j : ℕ) → j < k → StandsAt mem needle n (h + 1 + j) → ⊥)
          → (j : ℕ) → j < suc k
          → StandsAt mem needle n (h + j)
          → ⊥
      before h k miss none_before zero lt at = miss (subst (StandsAt mem needle n) (omega arith) at)
      before h k miss none_before (suc j) lt at =
          none_before j (omega (arith, lt)) (subst (StandsAt mem needle n) (omega arith) at)

  IsSearched-next :
      (h a : ℕ) (r : Option (Option ℕ))
      → (StandsAt mem needle n h → ⊥)
      → IsSearched mem (h + 1) a needle n r
      → IsSearched mem h (suc a) needle n r
  IsSearched-next h a r miss (searched {r = p} found) = searched (first-next h a p miss found)

  pub first_here : (h a : ℕ) → StandsAt mem needle n h → IsFirstMatch mem h a needle n (some h)
  first_here h a at =
      subst (λ p. IsFirstMatch mem h a needle n (some p)) {x = h + 0} {y = h} (omega arith)
        (first 0 (omega arith) (subst (StandsAt mem needle n) (omega arith) at)
          (λ j lt. absurd (omega (arith, lt))))

  match_or-IsSearched :
      (h a : ℕ) (m : Option Bool) (rest : Option (Option ℕ))
      → IsMatched mem needle n h m
      → IsSearched mem (h + 1) a needle n rest
      → IsSearched mem h (suc a) needle n (match_or m h rest)
  match_or-IsSearched h a m rest (stands all) after = searched (first_here h (suc a) all)
  match_or-IsSearched h a m rest (differs k lt ne) after =
      IsSearched-next h a rest (λ at. ne (at k lt)) after

  search_loop-IsSearched :
      (rounds bound h a : ℕ)
      → a < rounds
      → n < bound
      → 0 < n
      → HasLength mem h a
      → HasLength mem needle n
      → IsSearched mem h a needle n (search_loop rounds bound mem h needle)
  unfolding search_loop
  search_loop-IsSearched zero bound h a lt fits pos len len' = absurd (omega (arith, lt))
  search_loop-IsSearched (suc rounds) bound h zero lt fits pos len len' =
      let end : mem h ≡ 0 = ap mem {x = h} {y = h + 0} (omega arith) ∙ len.end in
      subst (IsSearched mem h 0 needle n)
        (sym (if-true (mem h == 0) (some none) _ (ground (arith, end))))
        (searched (nowhere (λ k lt'. absurd (omega (arith, lt')))))
  search_loop-IsSearched (suc rounds) bound h (suc a) lt fits pos len len' =
      let after =
        search_loop-IsSearched rounds bound (h + 1) a (omega (arith, lt)) fits pos
          (HasLength-next mem h a len) len' in
      let more : mem h ≢ 0 =
        λ z. len.inside 0 (omega arith) (ap mem {x = h + 0} {y = h} (omega arith) ∙ z) in
      if-both (IsSearched mem h (suc a) needle n) (mem h == 0) (some none) _
        (λ z. absurd (more (ground (arith, z))))
        (λ z.
          if-both (IsSearched mem h (suc a) needle n) (not (mem h == mem needle))
            (search_loop rounds bound mem (h + 1) needle) _
            (λ other. IsSearched-next h a _ (λ at. head-differs h pos other (at 0 pos)) after)
            (λ same.
              match_or-IsSearched h a _ _ (match_at-IsMatched bound mem h needle n fits len')
                after))
    where
      head-differs :
          (h : ℕ) → 0 < n → not (mem h == mem needle) ≡ true → mem (h + 0) ≡ mem (needle + 0) → ⊥
      head-differs h pos other e =
          let e' =
            ap mem {x = h} {y = h + 0} (omega arith)
            ∙ e
            ∙ ap mem {x = needle + 0} {y = needle} (omega arith) in
          ground (arith, other, e')

  zero_here : (mem needle == 0) ≡ true → mem needle ≡ 0
  zero_here empty = ground (arith, empty)

  needle_more : HasLength mem needle n → (mem needle == 0) ≡ false → 0 < n
  needle_more len full = elim (Bool-cases (n == 0)) [
    | inl e ↦
        let end : needle ≡ needle + n = ground (arith, e) in
        let here = ap mem end ∙ len.end in ground (arith, full, here)
    | inr more ↦ ground (arith, more)
  ]

  -- For strings of `a` and `n` characters, with more rounds than these for the two loops, `strstr`
  -- returns the first place in the haystack where the characters of the needle stand, and `NULL`
  -- where there is none; the place of an empty needle is the start.
  pub strstr-IsSearched :
      (rounds bound haystack a : ℕ)
      → a < rounds
      → n < bound
      → HasLength mem haystack a
      → HasLength mem needle n
      → IsSearched mem haystack a needle n (strstr rounds bound mem haystack needle)
  unfolding strstr
  strstr-IsSearched rounds bound haystack a lt fits len len' =
      if-both (IsSearched mem haystack a needle n) (mem needle == 0) (some (some haystack)) _
        (λ empty. searched (
          first_here haystack a (λ k lt'. absurd (
            len'.inside 0 (omega (arith, lt'))
              (ap mem {x = needle + 0} {y = needle} (omega arith) ∙ zero_here empty)))))
        (λ full.
          search_loop-IsSearched rounds bound haystack a lt fits (needle_more len' full) len len')
