-- ===== src/Lafs/Dir/Rounds.antt =====
-- The loops of `dir_lookup` and `lafs_open` of kernel/lafs.c end within the rounds of the model.
use la_os.Common.{
  ℕ, zero, suc, ◌+◌, ◌-◌, ◌/◌, ◌*◌, ◌%◌, ◌≤◌, ◌<◌, ◌≡◌, sym, subst, refl, Bool, true, false, ◌&&◌,
  ◌==◌, not, ltb, leb, if◌then◌else◌, Option, none, some, List, [], ◌∷◌, length, arith,
}
use la_os.Lafs.{
  Bytes, Device, Lafs, read_sector, rd32, block_pointer, lafs_blocks_max, read_inode_raw,
}
use la_os.Lafs.Dir.{
  same_bytes, Scan, found, end_of_sector, out_of_rounds, zero_entry, scan_sector, scan_then,
  sector_rounds, LookupResult, lookup_loop, lookup_found, dir_lookup, lookup_then, slash, lafs_open,
}
use la_os.Lafs.Dir.Open.{walk, pieces, open_loop-walk}

-- The search in the sector has come to an end.
data InRounds : Scan → Type 0 where
  at_entry : (ino : ℕ) → InRounds (found ino)
  at_end : InRounds end_of_sector

if-InRounds :
    (b : Bool) (x y : Scan)
    → (b ≡ true → InRounds x)
    → (b ≡ false → InRounds y)
    → InRounds (if b then x else y)
if-InRounds true x y p q = p refl
if-InRounds false x y p q = q refl

scan_sector-InRounds :
    (k : ℕ) (sec : Bytes) (name : List ℕ) (pos : ℕ)
    → 512 < pos + 6 * k
    → pos ≤ 512
    → InRounds (scan_sector k sec name pos)
unfolding scan_sector
scan_sector-InRounds zero sec name pos enough le = absurd (omega arith)
scan_sector-InRounds (suc k) sec name pos enough le =
    if-InRounds (not (leb (pos + 5) 512)) end_of_sector _ (λ z. at_end)
      (λ inside.
        if-InRounds (zero_entry sec pos) end_of_sector _ (λ z. at_end)
          (λ entry.
            if-InRounds (sec (pos + 4) == 0) end_of_sector _ (λ z. at_end)
              (λ named.
                if-InRounds (ltb 512 (pos + 5 + sec (pos + 4))) end_of_sector _ (λ z. at_end)
                  (λ fits.
                    if-InRounds (sec (pos + 4) == length name && same_bytes sec (pos + 5) name)
                      (found (rd32 sec pos)) _ (λ z. at_entry (rd32 sec pos))
                      (λ other.
                        scan_sector-InRounds k sec name (pos + (5 + sec (pos + 4)))
                          (further (sec (pos + 4)) named) (inside_sector (sec (pos + 4)) fits))))))
  where
    further : (n : ℕ) → (n == 0) ≡ false → 512 < pos + (5 + n) + 6 * k
    further n named = ground arith

    inside_sector : (n : ℕ) → ltb 512 (pos + 5 + n) ≡ false → pos + (5 + n) ≤ 512
    inside_sector n fits = ground arith

-- A lookup has a result.
abbrev pub HasResult : Option LookupResult → Type 0
HasResult call = (r : LookupResult) × (call ≡ some r)

if-HasResult :
    (b : Bool) (x y : Option LookupResult)
    → (b ≡ true → HasResult x)
    → (b ≡ false → HasResult y)
    → HasResult (if b then x else y)
if-HasResult true x y p q = p refl
if-HasResult false x y p q = q refl

-- What follows the search in a sector.
scan-HasResult :
    (scan : Scan) (t : Lafs) (rest : Option LookupResult)
    → InRounds scan
    → HasResult rest
    → HasResult (scan_then scan t rest)
scan-HasResult (found ino) t rest ended r = (_, refl)
scan-HasResult end_of_sector t rest ended r = r
scan-HasResult out_of_rounds t rest ended r = elim ended [ ]

abbrev Advanced : (off k : ℕ) → Type 0
Advanced off k =
    (lafs_blocks_max < (off + (512 - off % 512)) / 512 + k)
    × (0 < k)
    × ((off + (512 - off % 512)) / 512 ≤ lafs_blocks_max)

block_ahead :
    (off k : ℕ)
    → lafs_blocks_max < off / 512 + suc k
    → leb lafs_blocks_max (off / 512) ≡ false
    → Advanced off k
block_ahead off k enough inside = (ground arith, ground arith, ground arith)

lookup_loop-HasResult :
    (dev : Device) (k raw dir_size : ℕ) (name : List ℕ) (s : Lafs) (off : ℕ)
    → lafs_blocks_max < off / 512 + k
    → 0 < k
    → off / 512 ≤ lafs_blocks_max
    → HasResult (lookup_loop dev k raw dir_size name s off)
unfolding lookup_loop
lookup_loop-HasResult dev zero raw dir_size name s off enough pos le = absurd (omega arith)
lookup_loop-HasResult dev (suc k) raw dir_size name s off enough pos le =
    let advance : (leb lafs_blocks_max (off / 512) ≡ false) → Advanced off k =
      λ inside. block_ahead off k enough inside in
    let t = (read_sector dev s (block_pointer s raw (off / 512))).1 in
    if-HasResult (leb dir_size off) (some (none, s)) _ (λ z. (_, refl))
      (λ more.
        if-HasResult (leb lafs_blocks_max (off / 512)) (some (none, s)) _ (λ z. (_, refl))
          (λ inside.
            if-HasResult (block_pointer s raw (off / 512) == 0) (some (none, s)) _ (λ z. (_, refl))
              (λ block.
                if-HasResult (not (read_sector dev s (block_pointer s raw (off / 512))).0)
                  (some (none, t)) _ (λ z. (_, refl))
                  (λ done.
                    scan-HasResult (scan_sector sector_rounds t.sec name (off % 512)) t _
                      (scan_sector-InRounds sector_rounds t.sec name (off % 512) (omega arith)
                        (omega arith))
                      (lookup_loop-HasResult dev k raw dir_size name t (off + (512 - off % 512))
                        ((advance inside).0) ((advance inside).1) ((advance inside).2))))))

lookup_found-HasResult :
    (dev : Device) (name : List ℕ) (inode : Option ℕ × Lafs)
    → HasResult (lookup_found dev name inode)
unfolding lookup_found
lookup_found-HasResult dev name (none, t) = (_, refl)
lookup_found-HasResult dev name (some raw, t) =
    if-HasResult (not (t.sec raw == 2)) (some (none, t)) _ (λ z. (_, refl))
      (λ dir.
        if-HasResult (rd32 t.sec (raw + 33) == 0) (some (none, t)) _ (λ z. (_, refl))
          (λ filled.
            lookup_loop-HasResult dev (suc lafs_blocks_max) raw (rd32 t.sec (raw + 33)) name t 0
              (omega arith) (omega arith) (omega arith)))

dir_lookup-HasResult :
    (dev : Device) (s : Lafs) (ino : ℕ) (name : List ℕ) → HasResult (dir_lookup dev s ino name)
unfolding dir_lookup
dir_lookup-HasResult dev s ino name = lookup_found-HasResult dev name (read_inode_raw dev s ino)

lookup_then-HasResult :
    (call : Option LookupResult) (f : Lafs → ℕ → Option LookupResult)
    → HasResult call
    → ((t : Lafs) (next : ℕ) → HasResult (f t next))
    → HasResult (lookup_then call f)
lookup_then-HasResult none f (r, e) next = cc
lookup_then-HasResult (some (none, t)) f h next = (_, refl)
lookup_then-HasResult (some (some ino, t)) f h next = next t ino

walk-HasResult :
    (dev : Device) (s : Lafs) (ino : ℕ) (ws : List (List ℕ)) → HasResult (walk dev s ino ws)
unfolding walk
walk-HasResult dev s ino [] = (_, refl)
walk-HasResult dev s ino ([] ∷ ws) = walk-HasResult dev s ino ws
walk-HasResult dev s ino ((c ∷ cs) ∷ ws) =
    lookup_then-HasResult (dir_lookup dev s ino (c ∷ cs)) _
      (dir_lookup-HasResult dev s ino (c ∷ cs)) (λ t next. walk-HasResult dev t next ws)

-- `lafs_open` has a result within the rounds of the model, for every device, state and path.
pub lafs_open-HasResult :
    (dev : Device) (s : Lafs) (path : List ℕ) → HasResult (lafs_open dev s path)
unfolding lafs_open
lafs_open-HasResult dev s [] = (_, refl)
lafs_open-HasResult dev s (c ∷ p) =
    if-HasResult (not s.mounted) (some (none, s)) _ (λ z. (_, refl))
      (λ mounted.
        if-HasResult (not (c == slash)) (some (none, s)) _ (λ z. (_, refl))
          (λ absolute.
            subst HasResult (sym (open_loop-walk dev (suc (length p)) s 0 p (omega arith)))
              (walk-HasResult dev s 0 (pieces p))))
