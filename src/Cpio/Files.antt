-- ===== src/Cpio/Files.antt =====
-- `cpio_find` of kernel/cpio.c as a search in the entries of the archive.
use la_os.Common.{
  ℕ, zero, suc, ◌+◌, ◌^◌, ◌≤◌, ◌<◌, ◌≡◌, sym, subst, refl, Bool, true, false, if◌then◌else◌, Option,
  some, List, [], ◌∷◌, arith,
}
use la_os.Cpio.{
  Bytes, Entry, Reader, Next, entry, at_end, malformed, next_in, same_string, find_round, find_loop,
  find_from, cpio_find,
}
use la_os.Cpio.Bounds.{NextResult, gives, over, ends, fails, next_in-NextResult}

-- The entries that the reader gives from where it stands, and how they end.
pub data Listing (a : Bytes) : Reader → List Entry → Next → Type 0 where
  ended : (r r' : Reader) → next_in a r ≡ (at_end, r') → Listing a r [] at_end
  broken : (r r' : Reader) → next_in a r ≡ (malformed, r') → Listing a r [] malformed
  next :
      (r r' : Reader) (e : Entry) (es : List Entry) (last : Next)
      → next_in a r ≡ (entry e, r')
      → Listing a r' es last
      → Listing a r (e ∷ es) last

-- The first entry with the name, or else how the entries end.
pub first_named : Bytes → List Entry → (name : List ℕ) → (last : Next) → Next
first_named a [] name last = last
first_named a (e ∷ es) name last =
    let rest = first_named a es name last in if same_string a e.name name then entry e else rest

-- The listing and the result of a search.
abbrev pub Searches : Bytes → Reader → (name : List ℕ) → Option Next → Type 0
Searches a r name result =
    (es : List Entry) × (last : Next) × Listing a r es last
    × (result ≡ some (first_named a es name last))

round-Searches :
    (k : ℕ) (a : Bytes) (r : Reader) (name : List ℕ) (given : Next × Reader)
    → next_in a r ≡ given
    → NextResult a r given
    → ((r' : Reader)
        → r'.size ≡ r.size
        → r.offset < r'.offset
        → r'.offset ≤ r'.size
        → Searches a r' name (find_loop k a r' name))
    → Searches a r name (find_round a name given.0 (find_loop k a given.1 name))
unfolding first_named
round-Searches k a r name given eq (gives e r' len inside on) search =
    let (es, last, listing, found) =
      search r' on.size (omega (arith, on.starts, on.advances, inside.behind))
        (omega (arith, on.size, on.bounded)) in
    (
      e ∷ es,
      last,
      next r r' e es last eq listing,
      rw found (if-some (same_string a e.name name) (entry e) (first_named a es name last)),
    )
  where
    if-some : (b : Bool) (x y : Next) → (if b then some x else some y) ≡ some (if b then x else y)
    if-some true x y = refl
    if-some false x y = refl
round-Searches k a r name given eq (over z) search = ([], at_end, ended r _ eq, refl)
round-Searches k a r name given eq ends search = ([], at_end, ended r _ eq, refl)
round-Searches k a r name given eq fails search = ([], malformed, broken r _ eq, refl)

find_loop-Searches :
    (k : ℕ) (a : Bytes) (r : Reader) (name : List ℕ)
    → r.size < 2 ^ 32
    → r.offset ≤ r.size
    → r.size < k + r.offset
    → Searches a r name (find_loop k a r name)
unfolding find_loop
find_loop-Searches zero a r name small le enough = absurd (omega arith)
find_loop-Searches (suc k) a r name small le enough =
    round-Searches k a r name (next_in a r) refl (next_in-NextResult a r small)
      (λ r' size further le'.
        find_loop-Searches k a r' name (omega (arith, size)) le' (omega (arith, size)))

-- A reader at the start of its archive.
abbrev pub at_start : Reader → Reader
at_start r = record r { offset = 0; finished = false }

-- Where the default reader has an archive, of a 32-bit size, the entries from its start on end,
-- with the trailer or with an error, and `cpio_find` gives the first of them that has the name, or
-- else that end.
pub cpio_find-Searches :
    (a : Bytes) (r : Reader) (name : List ℕ)
    → r.archive ≡ some a
    → r.size < 2 ^ 32
    → Searches a (at_start r) name (cpio_find r name)
unfolding cpio_find find_from
cpio_find-Searches a r name is_open small =
    subst (λ o. Searches a (at_start r) name (find_from o (at_start r) name)) (sym is_open)
      (find_loop-Searches (suc r.size) a (at_start r) name small (omega arith) (omega arith))
