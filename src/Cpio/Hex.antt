-- ===== src/Cpio/Hex.antt =====
-- The hexadecimal numbers of kernel/cpio.c.
use la_os.Common.{
  ℕ, zero, suc, ◌+◌, ◌/◌, ◌%◌, ◌^◌, ◌<◌, ◌≡◌, ◌∙◌, ap, refl, ◌&&◌, ltb, leb, if◌then◌else◌, Option,
  none, some, arith, Bool-cases, inl, inr, if-true, if-false,
}
use la_os.Cpio.{Bytes, hex_digit, push_digit, hex_then, hex_loop, hex32}

-- The byte of a digit.
abbrev pub digit_char : ℕ → ℕ
digit_char d = if ltb d 10 then 48 + d else 87 + d

-- The bytes at `at` are the `left` last hexadecimal digits of `n`, which has no more.
abbrev pub Spells : (left : ℕ) → Bytes → (at n : ℕ) → Type 0
Spells zero a at n = n ≡ 0
Spells (suc left) a at n = (a (at + left) ≡ digit_char (n % 16)) × Spells left a at (n / 16)

hex_digit-digit_char : (d : ℕ) → d < 16 → hex_digit (digit_char d) ≡ some d
hex_digit-digit_char d small = elim (Bool-cases (ltb d 10)) [
  | inl decimal ↦
      ap hex_digit (if-true (ltb d 10) (48 + d) (87 + d) decimal)
      ∙ if-true (leb 48 (48 + d) && leb (48 + d) 57) _ _ (ground arith)
      ∙ ap some (omega arith)
  | inr letter ↦
      ap hex_digit (if-false (ltb d 10) (48 + d) (87 + d) letter)
      ∙ if-false (leb 48 (87 + d) && leb (87 + d) 57) _ _ (ground arith)
      ∙ if-true (leb 97 (87 + d) && leb (87 + d) 102) _ _ (ground arith)
      ∙ ap some (ground arith)
]

-- The loop takes one digit more at the end.
hex_loop-last :
    (left : ℕ) (s : Bytes) (at v d : ℕ)
    → hex_digit (s (at + left)) ≡ some d
    → hex_loop (suc left) s at v ≡ hex_then (hex_loop left s at v) (λ w. some (push_digit w d))
unfolding hex_loop
hex_loop-last zero s at v d digit =
    ap (λ o. hex_then o (λ x. some (push_digit v x)))
      (ap (λ i. hex_digit (s i)) (omega arith) ∙ digit)
hex_loop-last (suc left) s at v d digit = in_digit (hex_digit (s at)) (λ x.
    hex_loop-last left s (at + 1) (push_digit v x) d
      (ap (λ i. hex_digit (s i)) (omega arith) ∙ digit))
  where
    in_digit :
        (o : Option ℕ)
        → ((x : ℕ)
            → hex_loop (suc left) s (at + 1) (push_digit v x)
              ≡ hex_then (hex_loop left s (at + 1) (push_digit v x)) (λ w. some (push_digit w d)))
        → hex_then o (λ x. hex_loop (suc left) s (at + 1) (push_digit v x))
          ≡ hex_then
              (hex_then o (λ x. hex_loop left s (at + 1) (push_digit v x)))
              (λ w. some (push_digit w d))
    in_digit none same = refl
    in_digit (some x) same = same x

hex_loop-Spells :
    (left : ℕ) (s : Bytes) (at n : ℕ)
    → Spells left s at n
    → n < 2 ^ 32
    → hex_loop left s at 0 ≡ some n
unfolding hex_loop
hex_loop-Spells zero s at n spelt small = ap some (omega arith)
hex_loop-Spells (suc left) s at n (digit, rest) small =
    hex_loop-last left s at 0 (n % 16)
      (ap hex_digit digit ∙ hex_digit-digit_char (n % 16) (omega arith))
    ∙ ap (λ o. hex_then o (λ w. some (push_digit w (n % 16))))
        (hex_loop-Spells left s at (n / 16) rest (omega arith))
    ∙ ap some (omega arith)

-- Of the eight lower-case hexadecimal digits of a 32-bit number, `hex32` gives the number.
pub hex32-Spells : (s : Bytes) (at n : ℕ) → Spells 8 s at n → n < 2 ^ 32 → hex32 s at ≡ some n
unfolding hex32
hex32-Spells s at n spelt small = hex_loop-Spells 8 s at n spelt small
