-- ===== src/Lafs/Dir/Lookup.antt =====
-- `dir_lookup` of kernel/lafs.c in a directory of one sector, on a device that reads every sector.
use la_os.Common.{
  ℕ, suc, ◌+◌, ◌-◌, ◌%◌, ◌≤◌, ◌<◌, ◌≡◌, ◌∙◌, ap, refl, ◌==◌, not, leb, Option, none, some, List,
  arith, if-true, if-false,
}
use la_os.Lafs.{Lafs, rd32}
use la_os.Lafs.Contents.{Disk, reliable, inode_table, inode_raw, with_sec, inode_raw-found}
use la_os.Lafs.Dir.{scan_then, sector_rounds, to_int, lookup_loop, lookup_found, dir_lookup}
use la_os.Lafs.Dir.Sector.{Entry, Holds, first_entry, scan_of, scan_sector-first_entry}

-- `blocks[0]` of the inode.
abbrev pub dir_block : Disk → Lafs → (ino : ℕ) → ℕ
dir_block disk s ino = rd32 (inode_table disk s ino) (inode_raw ino + 37)

-- `ino` is the inode of a directory of one sector, which holds the entries.
pub record IsDir (disk : Disk) (s : Lafs) (ino : ℕ) (es : List Entry) : Type 0 where
  pub known : ino < s.inode_count
  pub dir : inode_table disk s ino (inode_raw ino) ≡ 2
  pub filled : 0 < rd32 (inode_table disk s ino) (inode_raw ino + 33)
  pub one : rd32 (inode_table disk s ino) (inode_raw ino + 33) ≤ 512
  pub block : 0 < dir_block disk s ino
  pub holds : Holds (disk (dir_block disk s ino)) 0 es

abbrev pub entry_result : Option ℕ → Option ℕ
entry_result none = none
entry_result (some ino) = to_int ino

last_round :
    (disk : Disk) (k raw dir_size : ℕ) (name : List ℕ) (t : Lafs) (entry : Option ℕ)
    → dir_size ≤ 512
    → scan_then
        (scan_of entry)
        t
        (lookup_loop (reliable disk) (suc k) raw dir_size name t (0 + (512 - 0 % 512)))
      ≡ some (entry_result entry, t)
unfolding lookup_loop
last_round disk k raw dir_size name t (some ino) one = refl
last_round disk k raw dir_size name t none one = if-true (leb dir_size 512) _ _ (ground arith)

one_sector :
    (disk : Disk) (k raw dir_size : ℕ) (name : List ℕ) (s : Lafs) (es : List Entry)
    → 0 < dir_size
    → dir_size ≤ 512
    → 0 < rd32 s.sec (raw + 37)
    → Holds (disk (rd32 s.sec (raw + 37))) 0 es
    → lookup_loop (reliable disk) (suc (suc k)) raw dir_size name s 0
      ≡ some (entry_result (first_entry es name), with_sec s (disk (rd32 s.sec (raw + 37))))
unfolding lookup_loop
one_sector disk k raw dir_size name s es filled one block holds =
    let t = with_sec s (disk (rd32 s.sec (raw + 37))) in
    if-false (leb dir_size 0) _ _ (ground arith)
    ∙ if-false (rd32 s.sec (raw + 37) == 0) _ _ (ground arith)
    ∙ ap
        (λ scan.
          scan_then scan t
            (lookup_loop (reliable disk) (suc k) raw dir_size name t (0 + (512 - 0 % 512))))
        (scan_sector-first_entry sector_rounds t.sec es name 0 holds (omega arith) (omega arith))
    ∙ last_round disk k raw dir_size name t (first_entry es name) one

-- On a device that reads every sector, a look-up in a directory that has one sector of entries
-- gives the inode of the first entry with the name, and -1 where no entry has it.
pub dir_lookup-first_entry :
    (disk : Disk) (s : Lafs) (ino : ℕ) (es : List Entry) (name : List ℕ)
    → IsDir disk s ino es
    → dir_lookup (reliable disk) s ino name
      ≡ some (entry_result (first_entry es name), with_sec s (disk (dir_block disk s ino)))
unfolding dir_lookup lookup_found
dir_lookup-first_entry disk s ino es name d =
    let t = with_sec s (inode_table disk s ino) in
    ap (lookup_found (reliable disk) name) (inode_raw-found disk s ino d.known)
    ∙ if-false (not (t.sec (inode_raw ino) == 2)) _ _ (ground (arith, d.dir))
    ∙ if-false (rd32 t.sec (inode_raw ino + 33) == 0) _ _ (ground (arith, d.filled))
    ∙ one_sector disk 19 (inode_raw ino) (rd32 t.sec (inode_raw ino + 33)) name t es d.filled d.one
        d.block d.holds
