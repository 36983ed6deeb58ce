-- ===== src/Common/Words.antt =====
-- 64-bit unsigned arithmetic with its wrap-around, pages and alignment.
use Prim.Native.Nat.{ℕ, ◌+◌, ◌-◌, ◌*◌, ◌/◌, ◌%◌, ◌^◌}

-- `UINT64_MAX + 1`.
abbrev pub u64_mod : ℕ
u64_mod = 2 ^ 64

abbrev pub add64 : ℕ → ℕ → ℕ
add64 a b = (a + b) % u64_mod

abbrev pub sub64 : ℕ → ℕ → ℕ
sub64 a b = (a + u64_mod - b) % u64_mod

abbrev pub mul64 : ℕ → ℕ → ℕ
mul64 a b = a * b % u64_mod

-- `PAGE_SIZE`.
abbrev pub page_size : ℕ
page_size = 4096

-- `x & ~(2^k - 1)` at a numeral `a = 2^k`: the multiple of `a` below `x`.
abbrev pub align_down : ℕ → ℕ → ℕ
align_down x a = x / a * a
