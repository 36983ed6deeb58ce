-- ===== src/Strings.antt =====
-- kernel/string.c: memory is a function from addresses to bytes.
pub mod Copy
pub mod Search
mod Tests
use la_os.Common.{
  ℕ, zero, suc, ◌+◌, ◌-◌, ◌*◌, ◌/◌, ◌%◌, ◌^◌, Bool, true, false, not, ◌&&◌, ◌==◌, ltb,
  if◌then◌else◌, Option, none, some,
}

abbrev pub Bytes : Type 0
Bytes = ℕ → ℕ

-- `p[0] = byte`.
abbrev pub put : Bytes → (p byte : ℕ) → Bytes
put mem p byte a = if a == p then byte else mem a

-- The loop of `memcpy`, and of `memmove` to a lower address, from the first byte on.
pub copy_up : (n : ℕ) → Bytes → (dest src : ℕ) → Bytes
copy_up zero mem dest src = mem
copy_up (suc n) mem dest src = copy_up n (put mem dest (mem src)) (dest + 1) (src + 1)

-- The loop of `memmove` to a higher address, from the last byte on.
pub copy_down : (n : ℕ) → Bytes → (dest src : ℕ) → Bytes
copy_down zero mem dest src = mem
copy_down (suc n) mem dest src = copy_down n (put mem (dest + n) (mem (src + n))) dest src

pub memcpy : Bytes → (dest src n : ℕ) → Bytes
memcpy mem dest src n = copy_up n mem dest src

pub memmove : Bytes → (dest src n : ℕ) → Bytes
memmove mem dest src n =
    if ltb dest src
    then copy_up n mem dest src
    else if ltb src dest
    then copy_down n mem dest src
    else mem

pub memset : Bytes → (s c n : ℕ) → Bytes
memset mem s c zero = mem
memset mem s c (suc n) = memset (put mem s (c % 2 ^ 8)) (s + 1) c n

-- `below`, `same` and `beyond` are -1, 0 and 1.
pub data Sign : Type 0 where
  below : Sign
  same : Sign
  beyond : Sign

pub memcmp : Bytes → (s1 s2 n : ℕ) → Sign
memcmp mem s1 s2 zero = same
memcmp mem s1 s2 (suc n) =
    let rest = memcmp mem (s1 + 1) (s2 + 1) n in
    if not (mem s1 == mem s2) then (if ltb (mem s1) (mem s2) then below else beyond) else rest

-- The loops over strings have a bound on their rounds, and `none` for too few of them.
pub length_loop : (rounds : ℕ) → Bytes → (s n : ℕ) → Option ℕ
length_loop zero mem s n = none
length_loop (suc rounds) mem s n =
    let rest = length_loop rounds mem (s + 1) (n + 1) in if not (mem s == 0) then rest else some n

pub strlen : (rounds : ℕ) → Bytes → (s : ℕ) → Option ℕ
strlen rounds mem s = if s == 0 then some 0 else length_loop rounds mem s 0

-- The two bytes whose difference is the result.
pub strcmp : (rounds : ℕ) → Bytes → (s1 s2 : ℕ) → Option (ℕ × ℕ)
strcmp zero mem s1 s2 = none
strcmp (suc rounds) mem s1 s2 =
    let rest = strcmp rounds mem (s1 + 1) (s2 + 1) in
    if not (mem s1 == 0) && (mem s1 == mem s2) then rest else some (mem s1, mem s2)

-- The inner loop of `strstr`, and whether it has reached the end of `needle`.
pub match_at : (rounds : ℕ) → Bytes → (h n : ℕ) → Option Bool
match_at zero mem h n = none
match_at (suc rounds) mem h n =
    let rest = match_at rounds mem (h + 1) (n + 1) in
    if not (mem h == 0) && not (mem n == 0) && (mem h == mem n) then rest else some (mem n == 0)

-- The outer loop; the inner one has up to `bound` rounds.
abbrev pub match_or : (matched : Option Bool) → (h : ℕ) → Option (Option ℕ) → Option (Option ℕ)
match_or none h rest = none
match_or (some true) h rest = some (some h)
match_or (some false) h rest = rest

pub search_loop : (rounds bound : ℕ) → Bytes → (haystack needle : ℕ) → Option (Option ℕ)
search_loop zero bound mem haystack needle = none
search_loop (suc rounds) bound mem haystack needle =
    let rest = search_loop rounds bound mem (haystack + 1) needle in
    if mem haystack == 0
    then some none
    else if not (mem haystack == mem needle)
    then rest
    else match_or (match_at bound mem haystack needle) haystack rest

-- The address, or `none` for `NULL`.
pub strstr : (rounds bound : ℕ) → Bytes → (haystack needle : ℕ) → Option (Option ℕ)
strstr rounds bound mem haystack needle =
    if mem needle == 0 then some (some haystack) else search_loop rounds bound mem haystack needle
