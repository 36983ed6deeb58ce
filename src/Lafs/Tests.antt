-- ===== src/Lafs/Tests.antt =====
-- kernel/lafs.c at concrete inputs: a disk with a file of 700 bytes, in the sectors 10 and 11.
use la_os.Common.{
  ℕ, ◌+◌, ◌-◌, ◌%◌, ◌^◌, ◌≡◌, refl, true, ◌==◌, if◌then◌else◌, Option, none, some, arith,
}
use la_os.Lafs.{
  Bytes, Lafs, read_inode_raw, copy_to, Reading, read_loop, clipped, read_file, read_found,
  lafs_read, lafs_mount, lafs_size, lafs_reset,
}
use la_os.Lafs.Read.{Ends, lafs_read-Ends}
use la_os.Lafs.Contents.{
  Disk, reliable, with_sec, IsPart, first_block, second_block, lafs_read-one_block,
  lafs_read-two_blocks,
}

-- The superblock: magic, four inodes, table at sector 1, data from sector 10.
abbrev super_block : Bytes
super_block i =
    if i == 0
    then 0x4c
    else if i == 1
    then 0x61
    else if i == 2
    then 0x46
    else if i == 3
    then 0x53
    else if i == 5
    then 4
    else if i == 9
    then 1
    else if i == 13
    then 10
    else 0

-- The inode 1 at offset 128.
abbrev table : Bytes
table i =
    if i == 128
    then 1
    else if i == 161
    then 188
    else if i == 162
    then 2
    else if i == 165
    then 10
    else if i == 169
    then 11
    else 0

-- The first block of the file has the byte 7 at the place of `blocks[1]` of inode 1.
abbrev disk : Disk
disk n =
    if n == 0
    then super_block
    else if n == 1
    then table
    else if n == 10
    then (λ i. if i == 169 then 7 else 0)
    else λ i. n

abbrev empty_buf : Bytes
empty_buf i = 0

abbrev fresh : Lafs
fresh =
    lafs_reset
      (record { inode_count = 9; inode_start = 9; data_start = 9; mounted = true; sec = empty_buf })

abbrev fs : Lafs
fs = (lafs_mount (reliable disk) fresh).1

mounts :
    ((lafs_mount (reliable disk) fresh).0 ≡ true)
    × (fs.mounted ≡ true)
    × (fs.inode_count + 0 ≡ 2 + 2)
    × (fs.inode_start + 0 ≡ 0 + 1)
unfolding lafs_mount lafs_reset
mounts = (refl, refl, refl, refl)

file_size : (lafs_size (reliable disk) fs 1).0 ≡ 600 + 100
unfolding lafs_size lafs_mount lafs_reset read_inode_raw
file_size = refl

abbrev fs_ready : Lafs
fs_ready = record {
  inode_count = 4;
  inode_start = 1;
  data_start = 10;
  mounted = true;
  sec = super_block;
}

abbrev buf_of : Option Reading → Bytes
buf_of none i = 0
buf_of (some r) i = r.buf i

-- The byte 512 of the file is that of sector 7, though the inode names sector 11.
abbrev wrong_sector : ℕ
wrong_sector = 7

second_block_byte : buf_of (lafs_read (reliable disk) fs_ready 1 empty_buf 0 600) 512 ≡ wrong_sector
unfolding lafs_read read_found read_inode_raw read_file read_loop
second_block_byte = refl

-- A length near 2 ^ 32 is not cut at the end of the file.
not_clipped : clipped 100 (2 ^ 32 - 50) 700 ≡ 2 ^ 32 - 50
not_clipped = refl

first_hundred-IsPart : IsPart disk fs_ready 1 0 100
first_hundred-IsPart = record {
  mounted = refl;
  known = omega arith;
  file = refl;
  fits = omega arith;
  small = omega arith;
  some_bytes = omega arith;
}

six_hundred-IsPart : IsPart disk fs_ready 1 0 600
six_hundred-IsPart = record {
  mounted = refl;
  known = omega arith;
  file = refl;
  fits = omega arith;
  small = omega arith;
  some_bytes = omega arith;
}

lafs_read-one_block_example :
    lafs_read (reliable disk) fs_ready 1 empty_buf 0 100
    ≡ some (record {
      count = some 100;
      buf = copy_to empty_buf 0 (disk (first_block disk fs_ready 1 0)) (0 % 512) 100;
      lafs = with_sec fs_ready (disk (first_block disk fs_ready 1 0));
    })
lafs_read-one_block_example =
    lafs_read-one_block disk fs_ready 1 empty_buf 0 100 first_hundred-IsPart (omega arith)
      (omega arith) (omega arith)

lafs_read-two_blocks_example :
    lafs_read (reliable disk) fs_ready 1 empty_buf 0 600
    ≡ some (record {
      count = some 600;
      buf =
          copy_to
            (copy_to empty_buf 0 (disk (first_block disk fs_ready 1 0)) (0 % 512) (512 - 0 % 512))
            (512 - 0 % 512)
            (disk (second_block disk fs_ready 1 0))
            0
            (600 - (512 - 0 % 512));
      lafs = with_sec fs_ready (disk (second_block disk fs_ready 1 0));
    })
lafs_read-two_blocks_example =
    lafs_read-two_blocks disk fs_ready 1 empty_buf 0 600 six_hundred-IsPart (omega arith)
      (omega arith) (omega arith) (omega arith) (omega arith)

lafs_read-Ends_example : Ends 600 empty_buf (lafs_read (reliable disk) fs_ready 1 empty_buf 0 600)
lafs_read-Ends_example =
    lafs_read-Ends (reliable disk) fs_ready 1 empty_buf 0 600 (omega arith) (omega arith)
