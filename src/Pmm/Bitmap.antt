-- ===== src/Pmm/Bitmap.antt =====
-- The bitmap macros of kernel/pmm.c: one bit for each page, 1 for a used page.
use la_os.Common.{ℕ, zero, suc, ◌-◌, ◌/◌, ◌%◌, ◌^◌, ◌<◌, ◌≡◌, refl, arith, bit_and, bit_or}
use la_os.Common.{Bool, true, false, not, ◌&&◌, ◌||◌, ◌==◌, if◌then◌else◌}

-- `pmm_bitmap` as the bytes that it points to.
abbrev pub Bytes : Type 0
Bytes = ℕ → ℕ

abbrev pub update : Bytes → ℕ → ℕ → Bytes
update m i v j = if i == j then v else m j

-- `1 << (idx % 8)`.
abbrev pub bit_of : ℕ → ℕ
bit_of idx = 2 ^ (idx % 8)

-- The store into a `uint8_t` cuts the `int` result to its low byte.
unfoldable pub bitmap_set : Bytes → ℕ → Bytes
bitmap_set m idx = update m (idx / 8) (bit_or (m (idx / 8)) (bit_of idx) % 256)

-- `~` is taken of an `int`, so of 32 bits.
unfoldable pub bitmap_clear : Bytes → ℕ → Bytes
bitmap_clear m idx = update m (idx / 8) (bit_and (m (idx / 8)) (2 ^ 32 - 1 - bit_of idx) % 256)

unfoldable pub bitmap_test : Bytes → ℕ → Bool
bitmap_test m idx = not (bit_and (m (idx / 8)) (bit_of idx) == 0)

abbrev pub IsBytes : Bytes → Type 0
IsBytes m = (i : ℕ) → m i < 256

-- A test of every number below a bound, by evaluation.
check_below : (ℕ → Bool) → ℕ → Bool
check_below p zero = true
check_below p (suc n) = if p n then check_below p n else false

check_below-true : (p : ℕ → Bool) (n i : ℕ) → i < n → check_below p n ≡ true → p i ≡ true
unfolding check_below
check_below-true p zero i lt h = absurd (omega arith)
check_below-true p (suc n) i lt h = ground (arith, check_below-true p n i)

eqb : Bool → Bool → Bool
eqb true b = b
eqb false b = not b

eqb→eq : (a b : Bool) → eqb a b ≡ true → a ≡ b
unfolding eqb
eqb→eq a b h = ground arith

set_row : ℕ → ℕ → ℕ → Bool
set_row b k l =
    eqb (not (bit_and (bit_or b (2 ^ k) % 256) (2 ^ l) == 0))
      ((k == l) || not (bit_and b (2 ^ l) == 0))

clear_row : ℕ → ℕ → ℕ → Bool
clear_row b k l =
    eqb (not (bit_and (bit_and b (2 ^ 32 - 1 - 2 ^ k) % 256) (2 ^ l) == 0))
      (not (k == l) && not (bit_and b (2 ^ l) == 0))

set_table : check_below (λ b. check_below (λ k. check_below (λ l. set_row b k l) 8) 8) 256 ≡ true
unfolding check_below set_row eqb
set_table = refl

clear_table :
    check_below (λ b. check_below (λ k. check_below (λ l. clear_row b k l) 8) 8) 256 ≡ true
unfolding check_below clear_row eqb
clear_table = refl

set_byte :
    (b k l : ℕ)
    → b < 256
    → k < 8
    → l < 8
    → not (bit_and (bit_or b (2 ^ k) % 256) (2 ^ l) == 0)
      ≡ ((k == l) || not (bit_and b (2 ^ l) == 0))
unfolding set_row
set_byte b k l hb hk hl =
    eqb→eq _ _ (
      check_below-true _ 8 _ hl (check_below-true _ 8 _ hk (check_below-true _ 256 _ hb set_table)))

clear_byte :
    (b k l : ℕ)
    → b < 256
    → k < 8
    → l < 8
    → not (bit_and (bit_and b (2 ^ 32 - 1 - 2 ^ k) % 256) (2 ^ l) == 0)
      ≡ (not (k == l) && not (bit_and b (2 ^ l) == 0))
unfolding clear_row
clear_byte b k l hb hk hl = eqb→eq _ _ (
    check_below-true _ 8 _ hl (check_below-true _ 8 _ hk (check_below-true _ 256 _ hb clear_table)))

pub bitmap_test-set :
    (m : Bytes) (i j : ℕ)
    → IsBytes m
    → bitmap_test (bitmap_set m i) j ≡ ((i == j) || bitmap_test m j)
unfolding bitmap_test bitmap_set
bitmap_test-set m i j h = ground (arith, h (i / 8), set_byte (m (i / 8)) (i % 8) (j % 8))

pub bitmap_test-clear :
    (m : Bytes) (i j : ℕ)
    → IsBytes m
    → bitmap_test (bitmap_clear m i) j ≡ (not (i == j) && bitmap_test m j)
unfolding bitmap_test bitmap_clear
bitmap_test-clear m i j h = ground (arith, h (i / 8), clear_byte (m (i / 8)) (i % 8) (j % 8))

pub bitmap_set-IsBytes : (m : Bytes) (i : ℕ) → IsBytes m → IsBytes (bitmap_set m i)
unfolding bitmap_set
bitmap_set-IsBytes m i h j = ground (arith, h j)

pub bitmap_clear-IsBytes : (m : Bytes) (i : ℕ) → IsBytes m → IsBytes (bitmap_clear m i)
unfolding bitmap_clear
bitmap_clear-IsBytes m i h j = ground (arith, h j)

full_table : check_below (λ l. not (bit_and 255 (2 ^ l) == 0)) 8 ≡ true
unfolding check_below
full_table = refl

-- In a byte 0xff every page is in use.
pub bitmap_test-full : (m : Bytes) (j : ℕ) → m (j / 8) ≡ 0xff → bitmap_test m j ≡ true
unfolding bitmap_test
bitmap_test-full m j e = rw e (check_below-true _ 8 _ (omega arith) full_table)
