-- ===== src/Strings/Copy.antt =====
-- The copies of kernel/string.c against the copy of all bytes at once.
use la_os.Common.{
  ℕ, zero, suc, ◌+◌, ◌-◌, ◌<◌, ◌≡◌, ◌≢◌, refl, sym, ap, ◌∙◌, ◌&&◌, ◌==◌, ltb, leb, if◌then◌else◌,
  if-true, if-false, if-both, Bool-cases, inl, inr, arith,
}
use la_os.Strings.{Bytes, put, copy_up, copy_down, memmove}

-- The byte at `a` once `n` bytes from `src` on have been copied to `dest` at once.
abbrev pub moved : Bytes → (dest src n a : ℕ) → ℕ
moved mem dest src n a = if leb dest a && ltb a (dest + n) then mem (src + (a - dest)) else mem a

moved-in :
    (mem : Bytes) (dest src n k : ℕ) → k < n → moved mem dest src n (dest + k) ≡ mem (src + k)
moved-in mem dest src n k lt =
    if-true (leb dest (dest + k) && ltb (dest + k) (dest + n)) (mem (src + (dest + k - dest)))
      (mem (dest + k)) (ground (arith, lt))
    ∙ ap mem (omega arith)

-- What a copy leaves, byte by byte.
pub record IsMoved (mem mem' : Bytes) (dest src n : ℕ) : Type 0 where
  pub copied : (k : ℕ) → k < n → mem' (dest + k) ≡ mem (src + k)
  pub kept : (a : ℕ) → ((k : ℕ) → k < n → a ≢ dest + k) → mem' a ≡ mem a

put-here : (mem : Bytes) (p byte : ℕ) → put mem p byte p ≡ byte
put-here mem p byte = if-true (p == p) byte (mem p) (ground arith)

put-there : (mem : Bytes) (p byte a : ℕ) → a ≢ p → put mem p byte a ≡ mem a
put-there mem p byte a ne = if-false (a == p) byte (mem a) (ground (arith, ne))

copy_up-first :
    (n : ℕ) (mem mem' : Bytes) (dest src : ℕ)
    → (dest < src)
    → IsMoved (put mem dest (mem src)) mem' (dest + 1) (src + 1) n
    → (k : ℕ) → k < suc n
    → mem' (dest + k) ≡ mem (src + k)
copy_up-first n mem mem' dest src before m zero lt =
    ap mem' {x = dest + 0} {y = dest} (omega arith)
    ∙ m.kept dest (λ k lt e. omega (arith, e))
    ∙ put-here mem dest (mem src)
    ∙ ap mem {x = src} {y = src + 0} (omega arith)
copy_up-first n mem mem' dest src before m (suc k) lt =
    ap mem' {x = dest + suc k} {y = dest + 1 + k} (omega arith)
    ∙ m.copied k (omega (arith, lt))
    ∙ put-there mem dest (mem src) (src + 1 + k) (λ e. omega (arith, e, before))
    ∙ ap mem {x = src + 1 + k} {y = src + suc k} (omega arith)

-- To a lower address the bytes are read before they are overwritten.
copy_up-IsMoved :
    (n : ℕ) (mem : Bytes) (dest src : ℕ)
    → dest < src
    → IsMoved mem (copy_up n mem dest src) dest src n
unfolding copy_up
copy_up-IsMoved zero mem dest src before = record {
  copied = λ k lt. absurd (omega (arith, lt));
  kept = λ a off. refl;
}
copy_up-IsMoved (suc n) mem dest src before =
    let m =
      copy_up-IsMoved n (put mem dest (mem src)) (dest + 1) (src + 1) (omega (arith, before)) in
    record {
      copied = copy_up-first n mem _ dest src before m;
      kept = λ a off.
          m.kept a (λ k lt e. off (suc k) (omega (arith, lt)) (omega (arith, e)))
          ∙ put-there mem dest (mem src) a (λ e. off 0 (omega arith) (omega (arith, e)));
    }

copy_down-IsMoved :
    (n : ℕ) (mem : Bytes) (dest src : ℕ)
    → src < dest
    → IsMoved mem (copy_down n mem dest src) dest src n
unfolding copy_down
copy_down-IsMoved zero mem dest src behind = record {
  copied = λ k lt. absurd (omega (arith, lt));
  kept = λ a off. refl;
}
copy_down-IsMoved (suc n) mem dest src behind =
    let m = copy_down-IsMoved n (put mem (dest + n) (mem (src + n))) dest src behind in
    record {
      copied = λ k lt. elim (Bool-cases (k == n)) [
        | inl e ↦
            let last : k ≡ n = ground (arith, e) in
            ap (copy_down n (put mem (dest + n) (mem (src + n))) dest src) {x = dest + k}
              {y = dest + n} (omega (arith, last))
            ∙ m.kept (dest + n) (λ j lt' e'. omega (arith, lt', e'))
            ∙ put-here mem (dest + n) (mem (src + n))
            ∙ ap mem {x = src + n} {y = src + k} (omega (arith, last))
        | inr other ↦
            let before : k < n = ground (arith, other, lt) in
            m.copied k before
            ∙ put-there mem (dest + n) (mem (src + n)) (src + k)
                (λ e. omega (arith, e, before, behind))
      ];
      kept = λ a off.
          m.kept a (λ k lt. off k (omega (arith, lt)))
          ∙ put-there mem (dest + n) (mem (src + n)) a (off n (omega arith));
    }

IsMoved-moved :
    (mem mem' : Bytes) (dest src n a : ℕ)
    → IsMoved mem mem' dest src n
    → mem' a ≡ moved mem dest src n a
IsMoved-moved mem mem' dest src n a m = elim (Bool-cases (leb dest a && ltb a (dest + n))) [
  | inl on ↦
      let k = a - dest in
      ap mem' {x = a} {y = dest + k} (ground (arith, on))
      ∙ m.copied k (ground (arith, on))
      ∙ sym (if-true (leb dest a && ltb a (dest + n)) (mem (src + k)) (mem a) on)
  | inr off ↦
      m.kept a (λ k lt e. ground (arith, off, lt, e))
      ∙ sym (if-false (leb dest a && ltb a (dest + n)) (mem (src + (a - dest))) (mem a) off)
]

-- `memmove` leaves each byte as a copy of all bytes at once does, however the two areas overlap.
pub memmove-moved :
    (mem : Bytes) (dest src n a : ℕ) → memmove mem dest src n a ≡ moved mem dest src n a
unfolding memmove
memmove-moved mem dest src n a =
    if-both (λ (r : Bytes). r a ≡ moved mem dest src n a) (ltb dest src) (copy_up n mem dest src) _
      (λ before.
        IsMoved-moved mem _ dest src n a (copy_up-IsMoved n mem dest src (ground (arith, before))))
      (λ not_before.
        if-both (λ (r : Bytes). r a ≡ moved mem dest src n a) (ltb src dest)
          (copy_down n mem dest src) mem
          (λ behind.
            IsMoved-moved mem _ dest src n a
              (copy_down-IsMoved n mem dest src (ground (arith, behind))))
          (λ not_behind.
            let here : src ≡ dest = ground (arith, not_before, not_behind) in
            IsMoved-moved mem mem dest src n a
              (record { copied = λ k lt. ap mem (omega (arith, here)); kept = λ b off. refl })))
