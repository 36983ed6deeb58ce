-- ===== src/Lafs/Dir/Sector.antt =====
-- The search in one sector of a directory of kernel/lafs.c.
use la_os.Common.{
  if-true, if-false, ℕ, zero, suc, ◌+◌, ◌*◌, ◌≤◌, ◌<◌, ◌≡◌, ◌∙◌, ap, refl, Bool, true, false, ◌&&◌,
  ◌==◌, not, ltb, leb, if◌then◌else◌, Option, none, some, List, [], ◌∷◌, length, arith, Bool-cases,
  inl, inr, ◌⊎◌,
}
use la_os.Lafs.{Bytes, rd32}
use la_os.Lafs.Dir.{same_bytes, Scan, found, end_of_sector, zero_entry, scan_sector}

-- An entry of a directory.
pub record Entry : Type 0 where
  pub ino : ℕ
  pub name : List ℕ

-- The bytes at `at` are those of the name.
abbrev pub Spells : Bytes → ℕ → List ℕ → Type 0
Spells sec at [] = Unit {0}
Spells sec at (c ∷ name) = (sec at ≡ c) × Spells sec (at + 1) name

-- The sector holds the entries from `pos` on, and then an entry of zeros or its end.
abbrev pub Holds : Bytes → ℕ → List Entry → Type 0
Holds sec pos [] = (512 < pos + 5) ⊎ (zero_entry sec pos ≡ true)
Holds sec pos (e ∷ es) =
    (pos + 5 + length e.name ≤ 512)
    × (0 < length e.name)
    × (0 < e.ino)
    × (rd32 sec pos ≡ e.ino)
    × (sec (pos + 4) ≡ length e.name)
    × Spells sec (pos + 5) e.name
    × Holds sec (pos + (5 + length e.name)) es

pub same_name : List ℕ → List ℕ → Bool
same_name [] [] = true
same_name [] (d ∷ ds) = false
same_name (c ∷ cs) [] = false
same_name (c ∷ cs) (d ∷ ds) = c == d && same_name cs ds

-- The inode of the first entry with the name.
pub first_entry : List Entry → (name : List ℕ) → Option ℕ
first_entry [] name = none
first_entry (e ∷ es) name =
    let rest = first_entry es name in if same_name e.name name then some e.ino else rest

abbrev pub scan_of : Option ℕ → Scan
scan_of none = end_of_sector
scan_of (some ino) = found ino

Spells-same :
    (sec : Bytes) (at : ℕ) (cs ds : List ℕ)
    → Spells sec at cs
    → (length cs == length ds && same_bytes sec at ds) ≡ same_name cs ds
unfolding same_bytes same_name
Spells-same sec at [] [] s = refl
Spells-same sec at [] (d ∷ ds) s = ground arith
Spells-same sec at (c ∷ cs) [] s = ground arith
Spells-same sec at (c ∷ cs) (d ∷ ds) s =
    let rest = Spells-same sec (at + 1) cs ds s.1 in
    let more : (suc (length cs) == suc (length ds)) ≡ (length cs == length ds) = ground arith in
    rw (more, s.0)
      (swap (length cs == length ds) (c == d) (same_bytes sec (at + 1) ds)
        ∙ ap (λ b. (c == d) && b) rest)
  where
    swap : (a b x : Bool) → (a && (b && x)) ≡ (b && (a && x))
    swap true b x = refl
    swap false true x = refl
    swap false false x = refl

scan-entry :
    (k : ℕ) (sec : Bytes) (e : Entry) (es : List Entry) (name : List ℕ) (pos : ℕ)
    → Holds sec pos (e ∷ es)
    → scan_sector (suc k) sec name pos ≡ (
        if same_name e.name name
        then found e.ino
        else scan_sector k sec name (pos + (5 + length e.name)))
unfolding scan_sector
scan-entry k sec e es name pos (fits, named, ino, at_ino, len, spelt, rest) =
    if-false (not (leb (pos + 5) 512)) _ _ (ground arith)
    ∙ if-false (zero_entry sec pos) _ _ (ground arith)
    ∙ if-false (sec (pos + 4) == 0) _ _ (ground arith)
    ∙ if-false (ltb 512 (pos + 5 + sec (pos + 4))) _ _ (ground arith)
    ∙ rw (len, at_ino)
        (ap (λ b. if b then found e.ino else scan_sector k sec name (pos + (5 + length e.name)))
          (Spells-same sec (pos + 5) e.name name spelt))

scan-end :
    (k : ℕ) (sec : Bytes) (name : List ℕ) (pos : ℕ)
    → Holds sec pos []
    → scan_sector (suc k) sec name pos ≡ end_of_sector
unfolding scan_sector
scan-end k sec name pos (inl past) = if-true (not (leb (pos + 5) 512)) _ _ (ground arith)
scan-end k sec name pos (inr zeros) = elim (Bool-cases (leb (pos + 5) 512)) [
  | inr past ↦ rw past
  | inl inside ↦ rw (inside, zeros)
]

-- Where a sector holds entries from `pos` on, and there are rounds for its bytes from there on,
-- the search finds the first entry of the name, or the end.
pub scan_sector-first_entry :
    (k : ℕ) (sec : Bytes) (es : List Entry) (name : List ℕ) (pos : ℕ)
    → Holds sec pos es
    → 512 < pos + 6 * k
    → pos ≤ 512
    → scan_sector k sec name pos ≡ scan_of (first_entry es name)
unfolding first_entry
scan_sector-first_entry zero sec es name pos h enough le = absurd (omega arith)
scan_sector-first_entry (suc k) sec [] name pos h enough le = scan-end k sec name pos h
scan_sector-first_entry (suc k) sec (e ∷ es) name pos h enough le =
    let next = pos + (5 + length e.name) in
    scan-entry k sec e es name pos h
    ∙ ap (λ r. if same_name e.name name then found e.ino else r)
        (scan_sector-first_entry k sec es name next h.6 (omega (arith, h.1)) (omega (arith, h.0)))
    ∙ scan_of-if (same_name e.name name) e.ino (first_entry es name)
  where
    scan_of-if :
        (b : Bool) (ino : ℕ) (rest : Option ℕ)
        → (if b then found ino else scan_of rest) ≡ scan_of (if b then some ino else rest)
    scan_of-if true ino rest = refl
    scan_of-if false ino rest = refl
