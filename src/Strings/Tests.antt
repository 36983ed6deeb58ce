-- ===== src/Strings/Tests.antt =====
-- kernel/string.c at concrete inputs.
use la_os.Common.{ℕ, zero, suc, ◌+◌, ◌<◌, ◌≡◌, ◌≢◌, refl, ◌==◌, if◌then◌else◌, none, some, arith}
use la_os.Strings.{
  Bytes, copy_up, copy_down, memcpy, memmove, memset, memcmp, beyond, same, length_loop, strlen,
  strcmp, match_at, search_loop, strstr,
}
use la_os.Strings.Copy.{moved, memmove-moved}
use la_os.Strings.Search.{HasLength, IsSearched, strstr-IsSearched}

-- "aab" at 100 and "ab" at 200.
abbrev text : Bytes
text a =
    if a == 100
    then 97
    else if a == 101
    then 97
    else if a == 102
    then 98
    else if a == 200
    then 97
    else if a == 201
    then 98
    else 0

-- Of two areas that overlap each byte is moved, in both directions.
overlap :
    (memmove text 101 100 3 103 ≡ 98)
    × (memmove text 99 100 3 100 ≡ 97)
    × (memcpy text 300 100 3 302 ≡ 98)
unfolding memmove memcpy copy_up copy_down
overlap = (refl, refl, refl)

filled : (memset text 100 354 2 101 ≡ 98) × (memset text 100 354 2 102 ≡ 98)
unfolding memset
filled = (refl, refl)

compared : (memcmp text 101 200 2 ≡ same) × (memcmp text 102 200 1 ≡ beyond)
unfolding memcmp
compared = (refl, refl)

lengths :
    (strlen 9 text 100 ≡ some 3)
    × (strlen 9 text 0 ≡ some 0)
    × (strcmp 9 text 101 200 ≡ some (0, 0))
    × (strcmp 9 text 100 200 ≡ some (97, 98))
unfolding strlen length_loop strcmp
lengths = (refl, refl, refl, refl)

found : (strstr 9 9 text 100 200 ≡ some (some 101)) × (strstr 9 9 text 200 100 ≡ some none)
unfolding strstr search_loop match_at
found = (refl, refl)

memmove-moved_example : memmove text 101 100 3 103 ≡ moved text 101 100 3 103
memmove-moved_example = memmove-moved text 101 100 3 103

haystack-HasLength : HasLength text 100 3
haystack-HasLength = record { end = refl; inside = haystack-inside }
  where
    haystack-inside : (k : ℕ) → k < 3 → text (100 + k) ≢ 0
    haystack-inside zero lt e = cc
    haystack-inside (suc zero) lt e = cc
    haystack-inside (suc (suc zero)) lt e = cc
    haystack-inside (suc (suc (suc k))) lt e = absurd (omega (arith, lt))

needle-HasLength : HasLength text 200 2
needle-HasLength = record { end = refl; inside = needle-inside }
  where
    needle-inside : (k : ℕ) → k < 2 → text (200 + k) ≢ 0
    needle-inside zero lt e = cc
    needle-inside (suc zero) lt e = cc
    needle-inside (suc (suc k)) lt e = absurd (omega (arith, lt))

strstr-IsSearched_example : IsSearched text 100 3 200 2 (strstr 4 3 text 100 200)
strstr-IsSearched_example =
    strstr-IsSearched text 200 2 4 3 100 3 (omega arith) (omega arith) haystack-HasLength
      needle-HasLength
