-- ===== src/Lafs/Read.antt =====
-- Reads of kernel/lafs.c.
use la_os.Common.{
  ℕ, zero, suc, ◌+◌, ◌-◌, ◌/◌, ◌%◌, ◌^◌, ◌≤◌, ◌<◌, ◌≡◌, sym, subst, refl, Bool, true, false, ◌&&◌,
  ◌==◌, not, ltb, leb, if◌then◌else◌, Option, none, some, arith, Bool-cases, inl, inr, ◌⊎◌,
}
use la_os.Lafs.{
  Bytes, Device, Lafs, read_sector, rd32, lafs_blocks_max, read_inode_raw, copy_to, Reading,
  block_pointer, chunk_size, read_loop, clipped, read_file, read_found, lafs_read,
}

-- At most `len` bytes are counted, nothing is written behind them, and the error result leaves
-- the buffer as it is.
abbrev pub BoundedCount : (len : ℕ) → (old new : Bytes) → Option ℕ → Type 0
BoundedCount len old new none = (i : ℕ) → new i ≡ old i
BoundedCount len old new (some n) = (n ≤ len) × ((i : ℕ) → n ≤ i → new i ≡ old i)

-- The call ends within the rounds, with a bounded result.
abbrev pub Ends : (len : ℕ) → Bytes → Option Reading → Type 0
Ends len buf result = (r : Reading) × (result ≡ some r) × BoundedCount len buf r.buf r.count

-- The rounds suffice: one for the check that all is read, or one for each block that is left.
abbrev Enough : (rounds offset len total : ℕ) → Type 0
Enough rounds offset len total =
    (1 ≤ rounds) × ((len ≤ total) ⊎ (lafs_blocks_max < offset / 512 + rounds))

-- The four ways of a round.
data Round (dev : Device) (k raw : ℕ) (s : Lafs) (buf : Bytes) (offset len total : ℕ) : Type 0 where
  stops :
      read_loop dev (suc k) raw s buf offset len total
        ≡ some (record { count = some total; buf = buf; lafs = s })
      → Round dev k raw s buf offset len total
  fails :
      read_loop dev (suc k) raw s buf offset len total
        ≡ some (record {
          count = if ltb 0 total then some total else none;
          buf = buf;
          lafs = (read_sector dev s (block_pointer s raw (offset / 512))).1;
        })
      → Round dev k raw s buf offset len total
  goes_on :
      total < len
      → offset / 512 < lafs_blocks_max
      → read_loop dev (suc k) raw s buf offset len total
        ≡ read_loop dev k raw
            (read_sector dev s (block_pointer s raw (offset / 512))).1
            (copy_to buf total
              (read_sector dev s (block_pointer s raw (offset / 512))).1.sec
              (offset % 512)
              (chunk_size offset len total))
            (offset + chunk_size offset len total)
            len
            (total + chunk_size offset len total)
      → Round dev k raw s buf offset len total

read_loop-Round :
    (dev : Device) (k raw : ℕ) (s : Lafs) (buf : Bytes) (offset len total : ℕ)
    → Round dev k raw s buf offset len total
unfolding read_loop
read_loop-Round dev k raw s buf offset len total = elim (Bool-cases (leb len total)) [
  | inl all ↦ stops (rw all)
  | inr more ↦ elim (Bool-cases (leb lafs_blocks_max (offset / 512))) [
    | inl end ↦ stops (rw (more, end))
    | inr inside ↦ elim (Bool-cases (block_pointer s raw (offset / 512) == 0)) [
      | inl hole ↦ stops (rw (more, inside, hole))
      | inr block ↦ elim (Bool-cases (read_sector dev s (block_pointer s raw (offset / 512))).0) [
        | inl done ↦ goes_on (ground arith) (ground arith) (rw (more, inside, block, done))
        | inr failed ↦ fails (rw (more, inside, block, failed))
      ]
    ]
  ]
]

-- What is not yet read is as it was, and a copy behind it keeps it so.
copy_to-behind :
    (old buf src : Bytes) (total from n : ℕ)
    → ((i : ℕ) → total ≤ i → buf i ≡ old i)
    → (i : ℕ) → total + n ≤ i
    → copy_to buf total src from n i ≡ old i
copy_to-behind old buf src total from n same i behind =
    let out : (leb total i && ltb i (total + n)) ≡ false = ground arith in
    rw out (same i (omega arith))

chunk_size-fits :
    (offset len total : ℕ)
    → total < len
    → (0 < chunk_size offset len total) × (total + chunk_size offset len total ≤ len)
chunk_size-fits offset len total more = ground arith

-- A chunk ends the read or the block.
chunk_size-Enough :
    (k offset len total : ℕ)
    → Enough (suc k) offset len total
    → total < len
    → offset / 512 < lafs_blocks_max
    → Enough k (offset + chunk_size offset len total) len (total + chunk_size offset len total)
chunk_size-Enough k offset len total enough more inside =
    elim (Bool-cases (ltb (len - total) (512 - offset % 512))) [
      | inl last ↦ (ground (arith, enough.1), inl (ground arith))
      | inr whole ↦ (ground (arith, enough.1), inr (ground (arith, enough.1)))
    ]

fails-Ends :
    (len total : ℕ) (old buf : Bytes) (t : Lafs)
    → total ≤ len
    → ((i : ℕ) → total ≤ i → buf i ≡ old i)
    → BoundedCount len old buf (if ltb 0 total then some total else none)
fails-Ends len total old buf t le same = elim (Bool-cases (ltb 0 total)) [
  | inl some_read ↦ rw some_read (le, same)
  | inr nothing ↦ rw nothing (λ i. same i (ground arith))
]

read_loop-Ends :
    (dev : Device) (k raw : ℕ) (s : Lafs) (old buf : Bytes) (offset len total : ℕ)
    → Enough k offset len total
    → total ≤ len
    → ((i : ℕ) → total ≤ i → buf i ≡ old i)
    → Ends len old (read_loop dev k raw s buf offset len total)
read_loop-Ends dev zero raw s old buf offset len total enough le same =
    absurd (omega (arith, enough.0))
read_loop-Ends dev (suc k) raw s old buf offset len total enough le same =
    elim (read_loop-Round dev k raw s buf offset len total) [
      | stops eq ↦ (_, eq, (le, same))
      | fails eq ↦ (_, eq, fails-Ends len total old buf s le same)
      | goes_on more inside eq ↦
          let t = (read_sector dev s (block_pointer s raw (offset / 512))).1 in
          let chunk = chunk_size offset len total in
          subst (Ends len old) (sym eq) (
            read_loop-Ends dev k raw t old _ (offset + chunk) len (total + chunk)
              (chunk_size-Enough k offset len total enough more inside)
              (chunk_size-fits offset len total more).1
              (copy_to-behind old buf t.sec total (offset % 512) chunk same))
    ]

clipped-le :
    (offset len fsize : ℕ)
    → offset < fsize
    → offset < 2 ^ 32
    → len < 2 ^ 32
    → clipped offset len fsize ≤ len
clipped-le offset len fsize inside small small' = ground arith

wider_count :
    (n len : ℕ) (old new : Bytes) (count : Option ℕ)
    → n ≤ len
    → BoundedCount n old new count
    → BoundedCount len old new count
wider_count n len old new none le b = b
wider_count n len old new (some m) le b = (omega (arith, b.0), b.1)

read_file-Ends :
    (dev : Device) (raw : ℕ) (s : Lafs) (buf : Bytes) (offset len : ℕ)
    → offset < 2 ^ 32
    → len < 2 ^ 32
    → Ends len buf (read_file dev raw s buf offset len)
unfolding read_file
read_file-Ends dev raw s buf offset len small small' =
    let fsize = rd32 s.sec (raw + 33) in
    elim (Bool-cases (s.sec raw == 1)) [
      | inr other ↦ rw other (_, refl, (λ i. refl))
      | inl file ↦ elim (Bool-cases (leb fsize offset)) [
        | inl past ↦ rw (file, past) (_, refl, (omega arith, λ i z. refl))
        | inr inside ↦
            let le : clipped offset len fsize ≤ len =
              clipped-le offset len fsize (ground arith) small small' in
            rw (file, inside)
              (wider (clipped offset len fsize) len buf _ le (
                read_loop-Ends dev (suc lafs_blocks_max) raw s buf buf offset
                  (clipped offset len fsize) 0 (omega arith, inr (omega arith)) (omega arith)
                  (λ i z. refl)))
      ]
    ]
  where
    wider :
        (n len : ℕ) (buf : Bytes) (result : Option Reading)
        → n ≤ len
        → Ends n buf result
        → Ends len buf result
    wider n len buf result le (r, eq, b) = (r, eq, wider_count n len buf r.buf r.count le b)

read_found-Ends :
    (dev : Device) (found : Option ℕ × Lafs) (buf : Bytes) (offset len : ℕ)
    → offset < 2 ^ 32
    → len < 2 ^ 32
    → Ends len buf (read_found dev found buf offset len)
unfolding read_found
read_found-Ends dev (none, t) buf offset len small small' = (_, refl, (λ i. refl))
read_found-Ends dev (some raw, t) buf offset len small small' =
    read_file-Ends dev raw t buf offset len small small'

if-Ends :
    (b : Bool) (len : ℕ) (buf : Bytes) (x y : Option Reading)
    → Ends len buf x
    → Ends len buf y
    → Ends len buf (if b then x else y)
if-Ends true len buf x y p q = p
if-Ends false len buf x y p q = q

-- `lafs_read` ends within the rounds of the model, for every device, inode and range of 32-bit
-- numbers. The count it returns is at most `len`, no byte of the buffer behind that count is
-- written, and the buffer is as it was where the result is an error.
pub lafs_read-Ends :
    (dev : Device) (s : Lafs) (ino : ℕ) (buf : Bytes) (offset len : ℕ)
    → offset < 2 ^ 32
    → len < 2 ^ 32
    → Ends len buf (lafs_read dev s ino buf offset len)
unfolding lafs_read
lafs_read-Ends dev s ino buf offset len small small' =
    if-Ends (not s.mounted) len buf _ _ (_, refl, (λ i. refl))
      (if-Ends (len == 0) len buf _ _ (_, refl, (omega arith, λ i z. refl))
        (read_found-Ends dev (read_inode_raw dev s ino) buf offset len small small'))
