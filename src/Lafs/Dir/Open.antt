-- ===== src/Lafs/Dir/Open.antt =====
-- `lafs_open` of kernel/lafs.c as a walk along the components of the path.
use la_os.Common.{
  ℕ, zero, suc, ◌≤◌, ◌<◌, ◌≡◌, ◌∙◌, sym, ap, refl, true, ◌==◌, not, if◌then◌else◌, Option, none,
  some, List, [], ◌∷◌, length, arith, Bool-cases, inl, inr,
}
use la_os.Lafs.{Device, Lafs}
use la_os.Lafs.Dir.{
  LookupResult, to_int, dir_lookup, lookup_then, open_component, slash, next_component, skip_slash,
  open_loop, lafs_open,
}

-- The pieces of a path between its slashes, the empty ones too; there is at least one.
pub first_piece : List ℕ → List ℕ
first_piece [] = []
first_piece (c ∷ p) = if c == slash then [] else c ∷ first_piece p

pub later_pieces : List ℕ → List (List ℕ)
later_pieces [] = []
later_pieces (c ∷ p) = if c == slash then first_piece p ∷ later_pieces p else later_pieces p

abbrev pub pieces : List ℕ → List (List ℕ)
pieces p = first_piece p ∷ later_pieces p

-- From the inode `ino`, each piece that is not empty names an entry of the directory so far.
unfoldable pub walk : Device → Lafs → (ino : ℕ) → List (List ℕ) → Option LookupResult
walk dev s ino [] = some (to_int ino, s)
walk dev s ino ([] ∷ ws) = walk dev s ino ws
walk dev s ino ((c ∷ cs) ∷ ws) =
    lookup_then (dir_lookup dev s ino (c ∷ cs)) (λ t next. walk dev t next ws)

-- The pieces behind a component.
abbrev rest_pieces : List ℕ → List (List ℕ)
rest_pieces [] = []
rest_pieces (c ∷ p) = pieces p

next_component-pieces :
    (p : List ℕ)
    → (first_piece p ≡ (next_component p).0) × (later_pieces p ≡ rest_pieces (next_component p).1)
unfolding next_component first_piece later_pieces
next_component-pieces [] = (refl, refl)
next_component-pieces (c ∷ p) =
    let (first, later) = next_component-pieces p in
    elim (Bool-cases (c == slash)) [
      | inl at_slash ↦ rw at_slash (refl, refl)
      | inr inside ↦ rw inside (ap (λ w. c ∷ w) first, later)
    ]

rest-length : (p : List ℕ) → length (next_component p).1 ≤ length p
unfolding next_component
rest-length [] = omega arith
rest-length (c ∷ p) = elim (Bool-cases (c == slash)) [
  | inl at_slash ↦ rw at_slash (omega arith)
  | inr inside ↦ rw inside (omega (arith, rest-length p))
]

-- The rest is empty, or loses its slash: it is shorter than a path that is not empty.
skip_slash-length : (c : ℕ) (p : List ℕ) → length (skip_slash (next_component (c ∷ p)).1) ≤ length p
unfolding skip_slash
skip_slash-length c p = skipped (next_component (c ∷ p)).1 (rest-length (c ∷ p))
  where
    skipped : (rest : List ℕ) → length rest ≤ suc (length p) → length (skip_slash rest) ≤ length p
    skipped [] le = omega arith
    skipped (d ∷ rest) le = omega arith

walk-rest :
    (dev : Device) (s : Lafs) (ino : ℕ) (rest : List ℕ)
    → walk dev s ino (pieces (skip_slash rest)) ≡ walk dev s ino (rest_pieces rest)
unfolding walk skip_slash first_piece later_pieces
walk-rest dev s ino [] = refl
walk-rest dev s ino (c ∷ rest) = refl

lookup_then-same :
    (found : Option LookupResult) (f g : Lafs → ℕ → Option LookupResult)
    → ((t : Lafs) (next : ℕ) → f t next ≡ g t next)
    → lookup_then found f ≡ lookup_then found g
lookup_then-same none f g same = refl
lookup_then-same (some (none, t)) f g same = refl
lookup_then-same (some (some next, t)) f g same = same t next

open_component-walk :
    (dev : Device) (s : Lafs) (ino : ℕ) (name : List ℕ) (ws : List (List ℕ))
    (f : Lafs → ℕ → Option LookupResult)
    → ((t : Lafs) (next : ℕ) → f t next ≡ walk dev t next ws)
    → open_component dev s ino name f ≡ walk dev s ino (name ∷ ws)
unfolding walk
open_component-walk dev s ino [] ws f same = same s ino
open_component-walk dev s ino (x ∷ xs) ws f same =
    lookup_then-same (dir_lookup dev s ino (x ∷ xs)) f _ same

pub open_loop-walk :
    (dev : Device) (k : ℕ) (s : Lafs) (ino : ℕ) (path : List ℕ)
    → length path < k
    → open_loop dev k s ino path ≡ walk dev s ino (pieces path)
unfolding open_loop walk first_piece later_pieces
open_loop-walk dev zero s ino path enough = absurd (omega arith)
open_loop-walk dev (suc k) s ino [] enough = refl
open_loop-walk dev (suc k) s ino (c ∷ p) enough =
    let name = (next_component (c ∷ p)).0 in
    let rest = (next_component (c ∷ p)).1 in
    let cut = next_component-pieces (c ∷ p) in
    open_component-walk dev s ino name (rest_pieces rest) _ (λ t next.
      open_loop-walk dev k t next (skip_slash rest) (omega (arith, skip_slash-length c p))
      ∙ walk-rest dev t next rest)
    ∙ ap (λ w. walk dev s ino (w ∷ rest_pieces rest)) (sym cut.0)
    ∙ ap (λ ws. walk dev s ino (first_piece (c ∷ p) ∷ ws)) (sym cut.1)

-- Opening an absolute path on a mounted file system takes no more rounds than the path has bytes,
-- and is the walk from the root, inode 0, along the pieces of the path between its slashes, of
-- which the empty ones are passed over.
pub lafs_open-walk :
    (dev : Device) (s : Lafs) (path : List ℕ)
    → s.mounted ≡ true
    → lafs_open dev s (slash ∷ path) ≡ walk dev s 0 (pieces path)
unfolding lafs_open
lafs_open-walk dev s path mounted =
    ap (λ b. if not b then some (none, s) else open_loop dev (suc (length path)) s 0 path) mounted
    ∙ open_loop-walk dev (suc (length path)) s 0 path (omega arith)
