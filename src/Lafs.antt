-- ===== src/Lafs.antt =====
-- kernel/lafs.c: the read-only file system. The device is a parameter of every operation that
-- reads; `g_sec` is the field `sec`, and a pointer into it is an offset in it.
pub mod Read
pub mod Contents
pub mod Dir
mod Tests
use la_os.Common.{
  ℕ, zero, suc, ◌+◌, ◌-◌, ◌/◌, ◌*◌, ◌%◌, ◌^◌, Bool, true, false, ◌&&◌, ◌==◌, not, ltb, leb,
  if◌then◌else◌, Option, none, some, List, [], ◌∷◌,
}

abbrev pub Bytes : Type 0
Bytes = ℕ → ℕ

-- `block_read(sec, g_sec, 1)`: whether it returns 1, and the buffer after it.
abbrev pub Device : Type 0
Device = ℕ → Bytes → Bool × Bytes

-- The static variables of the file.
pub record Lafs : Type 0 where
  pub inode_count : ℕ
  pub inode_start : ℕ
  pub data_start : ℕ
  pub mounted : Bool
  pub sec : Bytes

pub lafs_reset : Lafs → Lafs
lafs_reset s = record {
  inode_count = 0;
  inode_start = 0;
  data_start = 0;
  mounted = false;
  sec = λ i. 0;
}

-- `true` for the result 0.
abbrev pub read_sector : Device → Lafs → ℕ → Bool × Lafs
read_sector dev s n = ((dev n s.sec).0, record s { sec = (dev n s.sec).1 })

abbrev pub rd32 : Bytes → ℕ → ℕ
rd32 p off = p off + 256 * p (off + 1) + 2 ^ 16 * p (off + 2) + 2 ^ 24 * p (off + 3)

-- `LAFS_MAGIC`, `LAFS_INODE_SIZE`, `LAFS_BLOCKS_MAX`.
abbrev pub lafs_magic : ℕ
lafs_magic = 0x5346_614c

abbrev pub lafs_inode_size : ℕ
lafs_inode_size = 128

abbrev pub lafs_blocks_max : ℕ
lafs_blocks_max = 20

-- `byte_off` of `read_inode_raw`, and the sector it lies in.
abbrev pub inode_offset : ℕ → ℕ
inode_offset ino = (ino * lafs_inode_size) % 2 ^ 32

abbrev pub inode_sector : Lafs → ℕ → ℕ
inode_sector s ino = (s.inode_start + inode_offset ino / 512) % 2 ^ 32

-- The offset of the inode in `sec`; `none` is `NULL`.
pub read_inode_raw : Device → Lafs → ℕ → Option ℕ × Lafs
read_inode_raw dev s ino =
    let (done, t) = read_sector dev s (inode_sector s ino) in
    if leb s.inode_count ino
    then (none, s)
    else if done
    then (some (inode_offset ino % 512), t)
    else (none, t)

-- `true` for the result 0, `false` for -1.
pub lafs_mount : Device → Lafs → Bool × Lafs
lafs_mount dev s =
    let (done, t) = read_sector dev s 0 in
    let mounted : Lafs = record t {
      inode_count = rd32 t.sec 5;
      inode_start = rd32 t.sec 9;
      data_start = rd32 t.sec 13;
      mounted = true;
    } in
    if done && rd32 t.sec 0 == lafs_magic then (true, mounted) else (false, t)

-- `memcpy(dst + at, src + from, n)`.
abbrev pub copy_to : (dst : Bytes) (at : ℕ) (src : Bytes) (from n : ℕ) → Bytes
copy_to dst at src from n i = if leb at i && ltb i (at + n) then src (from + (i - at)) else dst i

-- The result (`none` is -1), and the caller's buffer and the file system after the call.
pub record Reading : Type 0 where
  pub count : Option ℕ
  pub buf : Bytes
  pub lafs : Lafs

-- The field `blocks[blk_idx]` of the inode at `raw`, in what the sector buffer holds now.
abbrev pub block_pointer : Lafs → (raw blk_idx : ℕ) → ℕ
block_pointer s raw blk_idx = rd32 s.sec (raw + (37 + blk_idx * 4))

abbrev pub chunk_size : (offset len total : ℕ) → ℕ
chunk_size offset len total =
    if ltb (len - total) (512 - offset % 512) then len - total else 512 - offset % 512

-- The loop of `lafs_read`; `none` where the rounds do not suffice.
pub read_loop : Device → (rounds raw : ℕ) → Lafs → Bytes → (offset len total : ℕ) → Option Reading
read_loop dev zero raw s buf offset len total = none
read_loop dev (suc k) raw s buf offset len total =
    let stop : Option Reading = some (record { count = some total; buf = buf; lafs = s }) in
    let blk_sec = block_pointer s raw (offset / 512) in
    let (done, t) = read_sector dev s blk_sec in
    let failed : Option Reading =
      some (record { count = if ltb 0 total then some total else none; buf = buf; lafs = t }) in
    let chunk = chunk_size offset len total in
    let rest =
      read_loop dev k raw t (copy_to buf total t.sec (offset % 512) chunk) (offset + chunk) len
        (total + chunk) in
    if leb len total
    then stop
    else if leb lafs_blocks_max (offset / 512)
    then stop
    else if blk_sec == 0
    then stop
    else if done
    then rest
    else failed

-- `len` cut at the end of the file.
abbrev pub clipped : (offset len fsize : ℕ) → ℕ
clipped offset len fsize = if ltb fsize ((offset + len) % 2 ^ 32) then fsize - offset else len

-- `lafs_read` after the inode is read.
pub read_file : Device → (raw : ℕ) → Lafs → Bytes → (offset len : ℕ) → Option Reading
read_file dev raw s buf offset len =
    let fsize = rd32 s.sec (raw + 33) in
    let error : Option Reading = some (record { count = none; buf = buf; lafs = s }) in
    let nothing : Option Reading = some (record { count = some 0; buf = buf; lafs = s }) in
    if not (s.sec raw == 1)
    then error
    else if leb fsize offset
    then nothing
    else read_loop dev (suc lafs_blocks_max) raw s buf offset (clipped offset len fsize) 0

pub read_found : Device → Option ℕ × Lafs → Bytes → (offset len : ℕ) → Option Reading
read_found dev (none, t) buf offset len = some (record { count = none; buf = buf; lafs = t })
read_found dev (some raw, t) buf offset len = read_file dev raw t buf offset len

pub lafs_read : Device → Lafs → (ino : ℕ) → Bytes → (offset len : ℕ) → Option Reading
lafs_read dev s ino buf offset len =
    let error : Option Reading = some (record { count = none; buf = buf; lafs = s }) in
    let nothing : Option Reading = some (record { count = some 0; buf = buf; lafs = s }) in
    let reading = read_found dev (read_inode_raw dev s ino) buf offset len in
    if not s.mounted then error else if len == 0 then nothing else reading

pub lafs_size : Device → Lafs → (ino : ℕ) → ℕ × Lafs
lafs_size dev s ino =
    let (found, t) = read_inode_raw dev s ino in
    elim found [
      | none ↦ (0, t)
      | some raw ↦ if t.sec raw == 1 then (rd32 t.sec (raw + 33), t) else (0, t)
    ]
