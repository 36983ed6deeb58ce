-- ===== src/Lafs/Contents.antt =====
-- What `lafs_read` of kernel/lafs.c returns on a device that reads every sector.
use la_os.Common.{
  if-true, if-false, ℕ, suc, ◌+◌, ◌-◌, ◌/◌, ◌*◌, ◌%◌, ◌^◌, ◌≤◌, ◌<◌, ◌≡◌, ◌∙◌, sym, ap, subst, true,
  ◌==◌, not, leb, Option, some, arith,
}
use la_os.Lafs.{
  Bytes, Device, Lafs, rd32, lafs_blocks_max, inode_offset, inode_sector, read_inode_raw, copy_to,
  Reading, block_pointer, chunk_size, read_loop, clipped, read_file, read_found, lafs_read,
}

-- The sectors of a device whose reads all succeed.
abbrev pub Disk : Type 0
Disk = ℕ → Bytes

abbrev pub reliable : Disk → Device
reliable disk n sec = (true, disk n)

-- The sector that holds the inode, and the offset of the inode in it.
abbrev pub inode_table : Disk → Lafs → ℕ → Bytes
inode_table disk s ino = disk (inode_sector s ino)

abbrev pub inode_raw : ℕ → ℕ
inode_raw ino = inode_offset ino % 512

abbrev pub with_sec : Lafs → Bytes → Lafs
with_sec s sec = record s { sec = sec }

-- The file system is mounted, and `ino` is the inode of a file of which `[offset, offset + len)`
-- is a part that is not empty.
pub record IsPart (disk : Disk) (s : Lafs) (ino offset len : ℕ) : Type 0 where
  pub mounted : s.mounted ≡ true
  pub known : ino < s.inode_count
  pub file : inode_table disk s ino (inode_raw ino) ≡ 1
  pub fits : offset + len ≤ rd32 (inode_table disk s ino) (inode_raw ino + 33)
  pub small : rd32 (inode_table disk s ino) (inode_raw ino + 33) < 2 ^ 32
  pub some_bytes : 0 < len

pub inode_raw-found :
    (disk : Disk) (s : Lafs) (ino : ℕ)
    → ino < s.inode_count
    → read_inode_raw (reliable disk) s ino
      ≡ (some (inode_raw ino), with_sec s (inode_table disk s ino))
unfolding read_inode_raw
inode_raw-found disk s ino known = if-false (leb s.inode_count ino) _ _ (ground arith)

read_file-starts :
    (dev : Device) (raw : ℕ) (t : Lafs) (buf : Bytes) (offset len : ℕ)
    → t.sec raw ≡ 1
    → 0 < len
    → offset + len ≤ rd32 t.sec (raw + 33)
    → rd32 t.sec (raw + 33) < 2 ^ 32
    → read_file dev raw t buf offset len
      ≡ read_loop dev (suc lafs_blocks_max) raw t buf offset len 0
unfolding read_file
read_file-starts dev raw t buf offset len file pos fits small =
    let fsize = rd32 t.sec (raw + 33) in
    let kept : clipped offset len fsize ≡ len = kept_len offset len fsize fits small in
    if-false (not (t.sec raw == 1)) _ _ (ground arith)
    ∙ if-false (leb fsize offset) _ _ (ground arith)
    ∙ ap (λ l. read_loop dev (suc lafs_blocks_max) raw t buf offset l 0) kept
  where
    kept_len :
        (offset len fsize : ℕ)
        → offset + len ≤ fsize
        → fsize < 2 ^ 32
        → clipped offset len fsize ≡ len
    kept_len offset len fsize fits small = ground arith

lafs_read-starts :
    (disk : Disk) (s : Lafs) (ino : ℕ) (buf : Bytes) (offset len : ℕ)
    → IsPart disk s ino offset len
    → lafs_read (reliable disk) s ino buf offset len
      ≡ read_loop
          (reliable disk)
          (suc lafs_blocks_max)
          (inode_raw ino)
          (with_sec s (inode_table disk s ino))
          buf
          offset
          len
          0
unfolding lafs_read read_found
lafs_read-starts disk s ino buf offset len part =
    if-false (not s.mounted) _ _ (ap not part.mounted)
    ∙ if-false (len == 0) _ _ (ground (arith, part.some_bytes))
    ∙ ap (λ f. read_found (reliable disk) f buf offset len) (inode_raw-found disk s ino part.known)
    ∙ read_file-starts (reliable disk) (inode_raw ino) (with_sec s (inode_table disk s ino)) buf
        offset len part.file part.some_bytes part.fits part.small

read_loop-done :
    (dev : Device) (k raw : ℕ) (t : Lafs) (buf : Bytes) (offset len total : ℕ)
    → len ≤ total
    → read_loop dev (suc k) raw t buf offset len total
      ≡ some (record { count = some total; buf = buf; lafs = t })
unfolding read_loop
read_loop-done dev k raw t buf offset len total all = if-true (leb len total) _ _ (ground arith)

read_loop-next :
    (disk : Disk) (k raw : ℕ) (t : Lafs) (buf : Bytes) (offset len total : ℕ)
    → total < len
    → offset / 512 < lafs_blocks_max
    → 0 < block_pointer t raw (offset / 512)
    → read_loop (reliable disk) (suc k) raw t buf offset len total
      ≡ read_loop
          (reliable disk)
          k
          raw
          (with_sec t (disk (block_pointer t raw (offset / 512))))
          (copy_to buf total
            (disk (block_pointer t raw (offset / 512)))
            (offset % 512)
            (chunk_size offset len total))
          (offset + chunk_size offset len total)
          len
          (total + chunk_size offset len total)
unfolding read_loop
read_loop-next disk k raw t buf offset len total more inside block =
    if-false (leb len total) _ _ (ground arith)
    ∙ if-false (leb lafs_blocks_max (offset / 512)) _ _ (ground arith)
    ∙ if-false (block_pointer t raw (offset / 512) == 0) _ _ (ground arith)

read_loop-first :
    (disk : Disk) (k raw : ℕ) (t : Lafs) (buf : Bytes) (offset len n : ℕ)
    → 0 < len
    → offset / 512 < lafs_blocks_max
    → 0 < block_pointer t raw (offset / 512)
    → chunk_size offset len 0 ≡ n
    → read_loop (reliable disk) (suc k) raw t buf offset len 0
      ≡ read_loop
          (reliable disk)
          k
          raw
          (with_sec t (disk (block_pointer t raw (offset / 512))))
          (copy_to buf 0 (disk (block_pointer t raw (offset / 512))) (offset % 512) n)
          (offset + n)
          len
          n
read_loop-first disk k raw t buf offset len n more inside block chunk =
    let sector = disk (block_pointer t raw (offset / 512)) in
    let rest : (m total : ℕ) → Option Reading = λ m total.
      read_loop (reliable disk) k raw (with_sec t sector) (copy_to buf 0 sector (offset % 512) m)
        (offset + m) len total in
    read_loop-next disk k raw t buf offset len 0 more inside block
    ∙ ap (λ m. rest m (0 + m)) chunk
    ∙ ap (rest n) (omega arith)

-- The sector that the first block of a read is taken from: `blocks[offset / 512]` of the inode.
abbrev pub first_block : Disk → Lafs → (ino offset : ℕ) → ℕ
first_block disk s ino offset =
    rd32 (inode_table disk s ino) (inode_raw ino + (37 + offset / 512 * 4))

one_chunk : (offset len : ℕ) → offset % 512 + len ≤ 512 → chunk_size offset len 0 ≡ len
one_chunk offset len one = ground arith

-- On a device that reads every sector, a part of a file that lies in one block, which the inode
-- has with a pointer other than 0, is read whole: `lafs_read` returns `len`, with the bytes of
-- that block at the offset, and the sector buffer then holds the block.
pub lafs_read-one_block :
    (disk : Disk) (s : Lafs) (ino : ℕ) (buf : Bytes) (offset len : ℕ)
    → IsPart disk s ino offset len
    → offset % 512 + len ≤ 512
    → offset / 512 < lafs_blocks_max
    → 0 < first_block disk s ino offset
    → lafs_read (reliable disk) s ino buf offset len
      ≡ some (record {
        count = some len;
        buf = copy_to buf 0 (disk (first_block disk s ino offset)) (offset % 512) len;
        lafs = with_sec s (disk (first_block disk s ino offset));
      })
lafs_read-one_block disk s ino buf offset len part one inside block =
    let raw = inode_raw ino in
    let t = with_sec s (inode_table disk s ino) in
    let sector = disk (first_block disk s ino offset) in
    lafs_read-starts disk s ino buf offset len part
    ∙ read_loop-first disk lafs_blocks_max raw t buf offset len len part.some_bytes inside block
        (one_chunk offset len one)
    ∙ read_loop-done (reliable disk) 19 raw (with_sec s sector) _ (offset + len) len len
        (omega arith)

-- The sector that the second block of a read is taken from: the words at the inode's place in the
-- first block, which has taken the inode's place in the sector buffer.
abbrev pub second_block : Disk → Lafs → (ino offset : ℕ) → ℕ
second_block disk s ino offset =
    rd32 (disk (first_block disk s ino offset)) (inode_raw ino + (37 + (offset / 512 + 1) * 4))

first_chunk :
    (offset len : ℕ) → 512 < offset % 512 + len → chunk_size offset len 0 ≡ 512 - offset % 512
first_chunk offset len two = ground arith

second_chunk :
    (offset len total : ℕ)
    → offset % 512 ≡ 0
    → len ≤ total + 512
    → chunk_size offset len total ≡ len - total
second_chunk offset len total start last = ground arith

-- The two last rounds of a read, from the start of a block on.
read_loop-last :
    (disk : Disk) (k raw : ℕ) (u : Lafs) (buf : Bytes) (offset len total idx : ℕ)
    → total < len
    → len ≤ total + 512
    → idx < lafs_blocks_max
    → offset / 512 ≡ idx
    → offset % 512 ≡ 0
    → 0 < block_pointer u raw idx
    → read_loop (reliable disk) (suc (suc k)) raw u buf offset len total
      ≡ some (record {
        count = some len;
        buf = copy_to buf total (disk (block_pointer u raw idx)) 0 (len - total);
        lafs = with_sec u (disk (block_pointer u raw idx));
      })
read_loop-last disk k raw u buf offset len total idx more last inside here start block =
    let sector = disk (block_pointer u raw idx) in
    let rest : (i from n : ℕ) → Option Reading = λ i from n.
      read_loop (reliable disk) (suc k) raw (with_sec u (disk (block_pointer u raw i)))
        (copy_to buf total (disk (block_pointer u raw i)) from n) (offset + n) len (total + n) in
    read_loop-next disk (suc k) raw u buf offset len total more (omega arith)
      (subst (λ i. 0 < block_pointer u raw i) (sym here) block)
    ∙ ap (λ i. rest i (offset % 512) (chunk_size offset len total)) here
    ∙ ap (λ from. rest idx from (chunk_size offset len total)) start
    ∙ ap (rest idx 0) (second_chunk offset len total start last)
    ∙ read_loop-done (reliable disk) k raw (with_sec u sector)
        (copy_to buf total sector 0 (len - total)) (offset + (len - total)) len
        (total + (len - total)) (omega arith)
    ∙ ap
        (λ c. some (record {
          count = some c;
          buf = copy_to buf total sector 0 (len - total);
          lafs = with_sec u sector;
        }))
        (all_read len total more)
  where
    all_read : (len total : ℕ) → total < len → total + (len - total) ≡ len
    all_read len total more = omega arith

next_block : (offset : ℕ) → (offset + (512 - offset % 512)) / 512 ≡ offset / 512 + 1
next_block offset = omega arith

next_start : (offset : ℕ) → (offset + (512 - offset % 512)) % 512 ≡ 0
next_start offset = omega arith

-- On a device that reads every sector, a part of a file that lies in two blocks is read from
-- `first_block` and `second_block`, where neither is 0: the second number comes from the data of
-- the first block, not from the inode.
pub lafs_read-two_blocks :
    (disk : Disk) (s : Lafs) (ino : ℕ) (buf : Bytes) (offset len : ℕ)
    → IsPart disk s ino offset len
    → 512 < offset % 512 + len
    → offset % 512 + len ≤ 1024
    → offset / 512 + 1 < lafs_blocks_max
    → 0 < first_block disk s ino offset
    → 0 < second_block disk s ino offset
    → lafs_read (reliable disk) s ino buf offset len
      ≡ some (record {
        count = some len;
        buf =
            copy_to
              (copy_to buf 0
                (disk (first_block disk s ino offset))
                (offset % 512)
                (512 - offset % 512))
              (512 - offset % 512)
              (disk (second_block disk s ino offset))
              0
              (len - (512 - offset % 512));
        lafs = with_sec s (disk (second_block disk s ino offset));
      })
lafs_read-two_blocks disk s ino buf offset len part two last inside block block' =
    let raw = inode_raw ino in
    let t = with_sec s (inode_table disk s ino) in
    let sector = disk (first_block disk s ino offset) in
    let u = with_sec s sector in
    let n = 512 - offset % 512 in
    let half = copy_to buf 0 sector (offset % 512) n in
    lafs_read-starts disk s ino buf offset len part
    ∙ read_loop-first disk lafs_blocks_max raw t buf offset len n part.some_bytes (omega arith)
        block (first_chunk offset len two)
    ∙ read_loop-last disk 18 raw u half (offset + n) len n (offset / 512 + 1) (omega arith)
        (omega arith) inside (next_block offset) (next_start offset) block'
