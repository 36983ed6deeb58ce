-- ===== src/Lafs/Dir/Tests.antt =====
-- Directories of kernel/lafs.c at concrete inputs: a root with the entries `a` and `bc`.
use la_os.Common.{
  ℕ, ◌≡◌, refl, true, ◌==◌, if◌then◌else◌, Option, none, some, List, [], ◌∷◌, inr, arith,
}
use la_os.Lafs.{Bytes, Lafs, read_inode_raw}
use la_os.Lafs.Contents.{Disk, reliable, with_sec}
use la_os.Lafs.Dir.{
  same_bytes, scan_sector, lookup_loop, lookup_found, dir_lookup, next_component, skip_slash,
  open_loop, LookupResult, slash, lafs_open,
}
use la_os.Lafs.Dir.Sector.{Entry, Holds, first_entry}
use la_os.Lafs.Dir.Lookup.{dir_block, IsDir, entry_result, dir_lookup-first_entry}
use la_os.Lafs.Dir.Open.{walk, pieces, lafs_open-walk}
use la_os.Lafs.Dir.Rounds.{HasResult, lafs_open-HasResult}

abbrev inodes : Bytes
inodes i = if i == 0 then 2 else if i == 33 then 13 else if i == 37 then 10 else 0

abbrev entries : Bytes
entries i =
    if i == 0
    then 1
    else if i == 4
    then 1
    else if i == 5
    then 97
    else if i == 6
    then 2
    else if i == 10
    then 2
    else if i == 11
    then 98
    else if i == 12
    then 99
    else 0

abbrev disk : Disk
disk n = if n == 1 then inodes else if n == 10 then entries else λ i. 0

abbrev fs : Lafs
fs = record { inode_count = 4; inode_start = 1; data_start = 10; mounted = true; sec = λ i. 0 }

abbrev name_a : List ℕ
name_a = 97 ∷ []

abbrev name_bc : List ℕ
name_bc = 98 ∷ 99 ∷ []

abbrev root_entries : List Entry
root_entries = record { ino = 1; name = name_a } ∷ record { ino = 2; name = name_bc } ∷ []

root-Holds : Holds entries 0 root_entries
root-Holds = (
  omega arith,
  omega arith,
  omega arith,
  refl,
  refl,
  (refl, tt),
  (omega arith, omega arith, omega arith, refl, refl, (refl, (refl, tt)), inr refl),
)

root-IsDir : IsDir disk fs 0 root_entries
root-IsDir = record {
  known = omega arith;
  dir = refl;
  filled = omega arith;
  one = omega arith;
  block = omega arith;
  holds = root-Holds;
}

-- The path `//bc/` opens inode 2.
abbrev path_bc : List ℕ
path_bc = slash ∷ 98 ∷ 99 ∷ slash ∷ []

abbrev inode_of : Option LookupResult → Option ℕ
inode_of none = none
inode_of (some (ino, t)) = ino

opens_bc : inode_of (lafs_open (reliable disk) fs (slash ∷ path_bc)) ≡ some 2
unfolding lafs_open open_loop next_component skip_slash dir_lookup lookup_found lookup_loop
    scan_sector same_bytes read_inode_raw
opens_bc = refl

dir_lookup-first_entry_example :
    dir_lookup (reliable disk) fs 0 name_bc
    ≡ some
        (entry_result (first_entry root_entries name_bc), with_sec fs (disk (dir_block disk fs 0)))
dir_lookup-first_entry_example = dir_lookup-first_entry disk fs 0 root_entries name_bc root-IsDir

lafs_open-walk_example :
    lafs_open (reliable disk) fs (slash ∷ path_bc) ≡ walk (reliable disk) fs 0 (pieces path_bc)
lafs_open-walk_example = lafs_open-walk (reliable disk) fs path_bc refl

lafs_open-HasResult_example : HasResult (lafs_open (reliable disk) fs (slash ∷ path_bc))
lafs_open-HasResult_example = lafs_open-HasResult (reliable disk) fs (slash ∷ path_bc)
