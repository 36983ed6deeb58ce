-- ===== src/Lafs/Dir.antt =====
-- kernel/lafs.c: `dir_lookup` and `lafs_open`.
pub mod Sector
pub mod Open
pub mod Rounds
pub mod Lookup
mod Tests
use la_os.Common.{
  ℕ, zero, suc, ◌+◌, ◌-◌, ◌/◌, ◌*◌, ◌%◌, ◌^◌, Bool, true, false, ◌&&◌, ◌==◌, not, ltb, leb,
  if◌then◌else◌, Option, none, some, List, [], ◌∷◌, length,
}
use la_os.Lafs.{
  Bytes, Device, Lafs, read_sector, rd32, lafs_blocks_max, read_inode_raw, block_pointer,
}

-- `memcmp(sec + at, name, name_len) == 0`, for a name that is `name_len` bytes long.
pub same_bytes : Bytes → (at : ℕ) → (name : List ℕ) → Bool
same_bytes sec at [] = true
same_bytes sec at (c ∷ name) = sec at == c && same_bytes sec (at + 1) name

-- How the search in one sector ends.
pub data Scan : Type 0 where
  found : (ino : ℕ) → Scan
  end_of_sector : Scan
  out_of_rounds : Scan

abbrev pub zero_entry : Bytes → ℕ → Bool
zero_entry sec pos = sec pos == 0 && sec (pos + 1) == 0 && sec (pos + 2) == 0 && sec (pos + 3) == 0

-- The inner loop of `dir_lookup`.
pub scan_sector : (rounds : ℕ) → Bytes → (name : List ℕ) → (pos : ℕ) → Scan
scan_sector zero sec name pos = out_of_rounds
scan_sector (suc k) sec name pos =
    let entry_nlen = sec (pos + 4) in
    let rest = scan_sector k sec name (pos + (5 + entry_nlen)) in
    if not (leb (pos + 5) 512)
    then end_of_sector
    else if zero_entry sec pos
    then end_of_sector
    else if entry_nlen == 0
    then end_of_sector
    else if ltb 512 (pos + 5 + entry_nlen)
    then end_of_sector
    else if entry_nlen == length name && same_bytes sec (pos + 5) name
    then found (rd32 sec pos)
    else rest

-- An entry is 6 bytes at least, so that 86 rounds pass the end of the sector.
abbrev pub sector_rounds : ℕ
sector_rounds = 86

-- The cast to `int`; `none` is a negative number.
abbrev pub to_int : ℕ → Option ℕ
to_int n = if ltb n (2 ^ 31) then some n else none

-- The result of `dir_lookup`, with the file system after it.
abbrev pub LookupResult : Type 0
LookupResult = Option ℕ × Lafs

-- `return (int)entry_ino`, or the rest of the outer loop.
abbrev pub scan_then : Scan → Lafs → Option LookupResult → Option LookupResult
scan_then (found ino) t rest = some (to_int ino, t)
scan_then end_of_sector t rest = rest
scan_then out_of_rounds t rest = none

-- The outer loop of `dir_lookup`; the outer `none` is for rounds that do not suffice.
pub lookup_loop :
    Device → (rounds raw dir_size : ℕ) → (name : List ℕ) → Lafs → (off : ℕ) → Option LookupResult
lookup_loop dev zero raw dir_size name s off = none
lookup_loop dev (suc k) raw dir_size name s off =
    let blk_sec = block_pointer s raw (off / 512) in
    let (done, t) = read_sector dev s blk_sec in
    let rest = lookup_loop dev k raw dir_size name t (off + (512 - off % 512)) in
    if leb dir_size off
    then some (none, s)
    else if leb lafs_blocks_max (off / 512)
    then some (none, s)
    else if blk_sec == 0
    then some (none, s)
    else if not done
    then some (none, t)
    else scan_then (scan_sector sector_rounds t.sec name (off % 512)) t rest

pub lookup_found : Device → (name : List ℕ) → Option ℕ × Lafs → Option LookupResult
lookup_found dev name (none, t) = some (none, t)
lookup_found dev name (some raw, t) =
    if not (t.sec raw == 2)
    then some (none, t)
    else if rd32 t.sec (raw + 33) == 0
    then some (none, t)
    else lookup_loop dev (suc lafs_blocks_max) raw (rd32 t.sec (raw + 33)) name t 0

pub dir_lookup : Device → Lafs → (dir_ino : ℕ) → (name : List ℕ) → Option LookupResult
dir_lookup dev s dir_ino name = lookup_found dev name (read_inode_raw dev s dir_ino)

abbrev pub slash : ℕ
slash = 47

-- The bytes of a path up to the next slash, and the rest from the slash on.
pub next_component : (path : List ℕ) → List ℕ × List ℕ
next_component [] = ([], [])
next_component (c ∷ p) =
    let (name, rest) = next_component p in if c == slash then ([], c ∷ p) else (c ∷ name, rest)

-- `if (*p) p++` and `if (*p == '/') p++`, where `p` is at the end or at a slash.
pub skip_slash : List ℕ → List ℕ
skip_slash [] = []
skip_slash (c ∷ p) = p

-- `if (next < 0) return -1;`, and else the rest of the loop.
abbrev pub lookup_then :
    Option LookupResult → (Lafs → ℕ → Option LookupResult) → Option LookupResult
lookup_then none rest = none
lookup_then (some (none, t)) rest = some (none, t)
lookup_then (some (some next, t)) rest = rest t next

-- The body of the loop of `lafs_open` for one component; `len == 0` is the case `[]`.
abbrev pub open_component :
    Device
    → Lafs
    → (ino : ℕ) → (name : List ℕ) → (Lafs → ℕ → Option LookupResult)
    → Option LookupResult
open_component dev s ino [] rest = rest s ino
open_component dev s ino (x ∷ xs) rest = lookup_then (dir_lookup dev s ino (x ∷ xs)) rest

-- The loop of `lafs_open`: the outer `none` is for rounds that do not suffice.
pub open_loop : Device → (rounds : ℕ) → Lafs → (ino : ℕ) → (path : List ℕ) → Option LookupResult
open_loop dev zero s ino path = none
open_loop dev (suc k) s ino [] = some (to_int ino, s)
open_loop dev (suc k) s ino (c ∷ p) =
    let (name, rest) = next_component (c ∷ p) in
    open_component dev s ino name (λ t next. open_loop dev k t next (skip_slash rest))

-- `none` in the result is -1; a null pointer for the path is left out.
pub lafs_open : Device → Lafs → (path : List ℕ) → Option LookupResult
lafs_open dev s [] = some (none, s)
lafs_open dev s (c ∷ p) =
    if not s.mounted
    then some (none, s)
    else if not (c == slash)
    then some (none, s)
    else open_loop dev (suc (length p)) s 0 p
