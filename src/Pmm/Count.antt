-- ===== src/Pmm/Count.antt =====
-- What the loops of kernel/pmm.c over a run do to the bits, and to the number of free pages.
use la_os.Common.{
  ℕ, zero, suc, ◌+◌, ◌≤◌, ◌<◌, ◌≡◌, refl, subst, Bool, true, false, not, ◌&&◌, ◌||◌, arith, ltb,
  leb, if◌then◌else◌, Bool-cases, inl, inr, u64_mod, add64, ok,
}
use la_os.Pmm.{set_run, clear_run}
use la_os.Pmm.Bitmap.{
  Bytes, IsBytes, bitmap_set, bitmap_clear, bitmap_test, bitmap_test-set, bitmap_test-clear,
  bitmap_set-IsBytes, bitmap_clear-IsBytes,
}

-- The number of pages below `n` whose bit is clear.
unfoldable pub clear_count : Bytes → ℕ → ℕ
clear_count m zero = 0
clear_count m (suc n) = clear_count m n + (if bitmap_test m n then 0 else 1)

pub clear_count-le : (m : Bytes) (n : ℕ) → clear_count m n ≤ n
unfolding clear_count
clear_count-le m zero = omega arith
clear_count-le m (suc n) = ground (arith, clear_count-le m n)

clear_count-set_above :
    (m : Bytes) (i n : ℕ) → IsBytes m → n ≤ i → clear_count (bitmap_set m i) n ≡ clear_count m n
unfolding clear_count
clear_count-set_above m i zero h le = refl
clear_count-set_above m i (suc n) h le =
    ground (arith, clear_count-set_above m i n h, bitmap_test-set m i n h)

clear_count-clear_above :
    (m : Bytes) (i n : ℕ) → IsBytes m → n ≤ i → clear_count (bitmap_clear m i) n ≡ clear_count m n
unfolding clear_count
clear_count-clear_above m i zero h le = refl
clear_count-clear_above m i (suc n) h le =
    ground (arith, clear_count-clear_above m i n h, bitmap_test-clear m i n h)

pub clear_count-set :
    (m : Bytes) (i n : ℕ)
    → IsBytes m
    → i < n
    → bitmap_test m i ≡ false
    → clear_count (bitmap_set m i) n + 1 ≡ clear_count m n
unfolding clear_count
clear_count-set m i zero h lt f = absurd (omega arith)
clear_count-set m i (suc n) h lt f =
    ground (arith, clear_count-set m i n h, clear_count-set_above m i n h, bitmap_test-set m i n h)

pub clear_count-clear :
    (m : Bytes) (i n : ℕ)
    → IsBytes m
    → i < n
    → bitmap_test m i ≡ true
    → clear_count (bitmap_clear m i) n ≡ clear_count m n + 1
unfolding clear_count
clear_count-clear m i zero h lt f = absurd (omega arith)
clear_count-clear m i (suc n) h lt f =
    ground
      (arith, clear_count-clear m i n h, clear_count-clear_above m i n h, bitmap_test-clear m i n h)

-- `lo ≤ j < hi` as a test.
abbrev pub within : (lo hi j : ℕ) → Bool
within lo hi j = leb lo j && ltb j hi

pub set_run-IsBytes :
    (m : Bytes) (start rounds i : ℕ) → IsBytes m → IsBytes (set_run m start rounds i)
unfolding set_run
set_run-IsBytes m start zero i h = h
set_run-IsBytes m start (suc rounds) i h =
    set_run-IsBytes (bitmap_set m (add64 start i)) start rounds (i + 1)
      (bitmap_set-IsBytes m (add64 start i) h)

module _ (start : ℕ) where
  pub bitmap_test-set_run :
      (m : Bytes) (rounds i j : ℕ)
      → IsBytes m
      → start + i + rounds < u64_mod
      → bitmap_test (set_run m start rounds i) j
        ≡ (within (start + i) (start + i + rounds) j || bitmap_test m j)
  unfolding set_run
  bitmap_test-set_run m zero i j h lt = ground arith
  bitmap_test-set_run m (suc rounds) i j h lt = ground (
    arith,
    bitmap_test-set_run (bitmap_set m (add64 start i)) rounds (i + 1) j
        (bitmap_set-IsBytes m (add64 start i) h),
    bitmap_test-set m (add64 start i) j h,
  )

  pub clear_count-set_run :
      (m : Bytes) (rounds i n : ℕ)
      → IsBytes m
      → start + i + rounds ≤ n
      → n < u64_mod
      → ((j : ℕ) → start + i ≤ j → j < start + i + rounds → bitmap_test m j ≡ false)
      → clear_count (set_run m start rounds i) n + rounds ≡ clear_count m n
  unfolding set_run
  clear_count-set_run m zero i n h le lt f = omega arith
  clear_count-set_run m (suc rounds) i n h le lt f = omega (
    arith,
    clear_count-set_run (bitmap_set m (add64 start i)) rounds (i + 1) n
        (bitmap_set-IsBytes m (add64 start i) h) (omega arith) lt
        (λ j a b. ground (arith, bitmap_test-set m (add64 start i) j h, f j)),
    clear_count-set m (add64 start i) n h (omega arith)
        (f (add64 start i) (omega arith) (omega arith)),
  )

  -- What `clear_run` leaves of the bits, when it returns.
  pub record Cleared (m m' : Bytes) (rounds i : ℕ) : Type 0 where
    pub bytes : IsBytes m'
    pub were_set : (j : ℕ) → start + i ≤ j → j < start + i + rounds → bitmap_test m j ≡ true
    pub bits :
        (j : ℕ)
        → bitmap_test m' j ≡ (not (within (start + i) (start + i + rounds) j) && bitmap_test m j)
    pub count : (n : ℕ) → start + i + rounds ≤ n → clear_count m' n ≡ clear_count m n + rounds

  Cleared-zero : (m : Bytes) (i : ℕ) → IsBytes m → Cleared m m 0 i
  Cleared-zero m i h = record {
    bytes = h;
    were_set = λ j a b. absurd (omega arith);
    bits = λ j. ground arith;
    count = λ n le. omega arith;
  }

  Cleared-suc :
      (m : Bytes) (rounds i : ℕ) {m' : Bytes}
      → IsBytes m
      → start + i + suc rounds < u64_mod
      → bitmap_test m (add64 start i) ≡ true
      → Cleared (bitmap_clear m (add64 start i)) m' rounds (i + 1)
      → Cleared m m' (suc rounds) i
  Cleared-suc m rounds i h lt t c = record {
    bytes = c.bytes;
    were_set = λ j a b. ground (arith, c.were_set j, bitmap_test-clear m (add64 start i) j h);
    bits = λ j. ground (arith, c.bits j, bitmap_test-clear m (add64 start i) j h);
    count = λ n le.
        omega
          (arith, c.count n (omega arith), clear_count-clear m (add64 start i) n h (omega arith) t);
  }

  pub clear_run-Cleared :
      (m : Bytes) (rounds i : ℕ) {m' : Bytes}
      → IsBytes m
      → start + i + rounds < u64_mod
      → clear_run m start rounds i ≡ ok m'
      → Cleared m m' rounds i
  unfolding clear_run
  clear_run-Cleared m zero i h lt e = subst (λ x. Cleared m x 0 i) (cc) (Cleared-zero m i h)
  clear_run-Cleared m (suc rounds) i {m'} h lt e =
      elim (Bool-cases (bitmap_test m (add64 start i))) [
        | inr f ↦ absurd (ground arith)
        | inl t ↦
            let e' : clear_run (bitmap_clear m (add64 start i)) start rounds (i + 1) ≡ ok m' =
              ground arith in
            Cleared-suc m rounds i h lt t (
              clear_run-Cleared (bitmap_clear m (add64 start i)) rounds (i + 1)
                (bitmap_clear-IsBytes m (add64 start i) h) (omega arith) e')
      ]

  pub clear_run-ok :
      (m : Bytes) (rounds i : ℕ)
      → IsBytes m
      → start + i + rounds < u64_mod
      → ((j : ℕ) → start + i ≤ j → j < start + i + rounds → bitmap_test m j ≡ true)
      → (m' : Bytes) × (clear_run m start rounds i ≡ ok m')
  unfolding clear_run
  clear_run-ok m zero i h lt f = (m, refl)
  clear_run-ok m (suc rounds) i h lt f = rw (f (add64 start i) (omega arith) (omega arith)) (
      clear_run-ok (bitmap_clear m (add64 start i)) rounds (i + 1)
        (bitmap_clear-IsBytes m (add64 start i) h) (omega arith)
        (λ j a b. ground (arith, bitmap_test-clear m (add64 start i) j h, f j)))
