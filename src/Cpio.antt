-- ===== src/Cpio.antt =====
-- kernel/cpio.c: the reader of newc archives. An archive is a function from the offset to the byte,
-- and a pointer into it is an offset.
pub mod Bounds
pub mod Files
pub mod Hex
mod Tests
use la_os.Common.{
  ℕ, zero, suc, ◌+◌, ◌-◌, ◌/◌, ◌*◌, ◌%◌, ◌^◌, Bool, true, false, ◌&&◌, ◌==◌, not, ltb, leb,
  if◌then◌else◌, Option, none, some, List, [], ◌∷◌,
}

abbrev pub Bytes : Type 0
Bytes = ℕ → ℕ

-- `struct cpio_entry`; `name` and `data_at`, its `data`, are offsets in the archive.
pub record Entry : Type 0 where
  pub name : ℕ
  pub data_at : ℕ
  pub size : ℕ
  pub mode : ℕ

-- `struct cpio_reader`; `none` is a null pointer.
pub record Reader : Type 0 where
  pub archive : Option Bytes
  pub size : ℕ
  pub offset : ℕ
  pub finished : Bool

abbrev pub cpio_reset : Reader
cpio_reset = record { archive = none; size = 0; offset = 0; finished = false }

-- `CPIO_HDR_LEN`.
abbrev pub cpio_hdr_len : ℕ
cpio_hdr_len = 110

abbrev pub hex_digit : ℕ → Option ℕ
hex_digit c =
    if leb 48 c && leb c 57
    then some (c - 48)
    else if leb 97 c && leb c 102
    then some (c - 97 + 10)
    else if leb 65 c && leb c 70
    then some (c - 65 + 10)
    else none

-- `v = (v << 4) | digit`, where the four bits of the digit are free.
abbrev pub push_digit : (v digit : ℕ) → ℕ
push_digit v digit = (v * 16) % 2 ^ 32 + digit

-- `return -1` for a byte that is no digit.
abbrev pub hex_then : Option ℕ → (ℕ → Option ℕ) → Option ℕ
hex_then none rest = none
hex_then (some digit) rest = rest digit

-- The loop of `hex32`, with the digits that are left.
pub hex_loop : (left : ℕ) → Bytes → (at v : ℕ) → Option ℕ
hex_loop zero s at v = some v
hex_loop (suc left) s at v =
    hex_then (hex_digit (s at)) (λ digit. hex_loop left s (at + 1) (push_digit v digit))

pub hex32 : Bytes → (at : ℕ) → Option ℕ
hex32 s at = hex_loop 8 s at 0

-- `memcmp(s + at, text, n) == 0` for a text of `n` bytes.
pub same_bytes : Bytes → (at : ℕ) → (text : List ℕ) → Bool
same_bytes s at [] = true
same_bytes s at (c ∷ text) = s at == c && same_bytes s (at + 1) text

-- "070701" and "TRAILER!!!" with its NUL.
abbrev pub magic : List ℕ
magic = 48 ∷ 55 ∷ 48 ∷ 55 ∷ 48 ∷ 49 ∷ []

abbrev pub trailer : List ℕ
trailer = 84 ∷ 82 ∷ 65 ∷ 73 ∷ 76 ∷ 69 ∷ 82 ∷ 33 ∷ 33 ∷ 33 ∷ 0 ∷ []

-- `true` for the result 0; the archive's address plus its size does not wrap.
pub cpio_reader_init : Reader → (archive : Option Bytes) → (size : ℕ) → Bool × Reader
cpio_reader_init r none size = (false, r)
cpio_reader_init r (some a) size =
    if ltb size (cpio_hdr_len + 1)
    then (false, r)
    else if same_bytes a 0 magic
    then (true, record { archive = some a; size = size; offset = 0; finished = false })
    else (false, r)

-- The results 1, 0 and -1.
pub data Next : Type 0 where
  entry : Entry → Next
  at_end : Next
  malformed : Next

pub record Header : Type 0 where
  pub namesize : ℕ
  pub filesize : ℕ
  pub mode : ℕ

-- The three numbers, where all are hexadecimal and there is a name.
pub header_of : (namesize filesize mode : Option ℕ) → Option Header
header_of none filesize mode = none
header_of (some n) none mode = none
header_of (some n) (some f) none = none
header_of (some n) (some f) (some m) =
    if n == 0 then none else some (record { namesize = n; filesize = f; mode = m })

-- The fields of the header at `hdr`.
pub read_header : Bytes → (hdr : ℕ) → Option Header
read_header a hdr =
    if same_bytes a hdr magic
    then header_of (hex32 a (hdr + 94)) (hex32 a (hdr + 54)) (hex32 a (hdr + 14))
    else none

-- No NUL among `count` bytes.
pub no_nul : (count : ℕ) → Bytes → (at : ℕ) → Bool
no_nul zero a at = true
no_nul (suc count) a at = not (a at == 0) && no_nul count a (at + 1)

-- `(n + 3) & ~3ULL`: the numbers here are below 2 ^ 34, so the sum does not wrap.
abbrev pub align4 : ℕ → ℕ
align4 n = (n + 3) / 4 * 4

-- `cpio_reader_next` from the check of the name on.
pub next_entry : Bytes → Reader → Header → Next × Reader
next_entry a r h =
    let name_start = r.offset + cpio_hdr_len in
    let data_start = align4 (name_start + h.namesize) in
    let next = align4 (data_start + h.filesize) in
    let e : Entry = record {
      name = name_start;
      data_at = data_start;
      size = h.filesize;
      mode = h.mode;
    } in
    if ltb (r.size - name_start) h.namesize
    then (malformed, r)
    else if not (a (name_start + (h.namesize - 1)) == 0)
    then (malformed, r)
    else if not (no_nul (h.namesize - 1) a name_start)
    then (malformed, r)
    else if ltb r.size data_start
    then (malformed, r)
    else if ltb (r.size - data_start) h.filesize
    then (malformed, r)
    else if ltb r.size next
    then (malformed, r)
    else if h.namesize == 11 && same_bytes a name_start trailer
    then if h.filesize == 0 then (at_end, record r { finished = true }) else (malformed, r)
    else (entry e, record r { offset = next % 2 ^ 32 })

pub next_header : Bytes → Reader → Option Header → Next × Reader
next_header a r none = (malformed, r)
next_header a r (some h) = next_entry a r h

-- `cpio_reader_next` behind the check of the archive.
pub next_in : Bytes → Reader → Next × Reader
next_in a r =
    if r.finished
    then (at_end, r)
    else if ltb r.size r.offset
    then (malformed, r)
    else if ltb (r.size - r.offset) cpio_hdr_len
    then (malformed, r)
    else next_header a r (read_header a r.offset)

abbrev pub next_of : Option Bytes → Reader → Next × Reader
next_of none r = (malformed, r)
next_of (some a) r = next_in a r

abbrev pub cpio_reader_next : Reader → Next × Reader
cpio_reader_next r = next_of r.archive r

-- `strcmp(name, e.name) == 0`, for a name without NUL bytes.
pub same_string : Bytes → (at : ℕ) → (name : List ℕ) → Bool
same_string a at [] = a at == 0
same_string a at (c ∷ name) = a at == c && same_string a (at + 1) name

-- A round of the loop of `cpio_find`; `rest` are the rounds behind it.
abbrev pub find_round : Bytes → (name : List ℕ) → Next → (rest : Option Next) → Option Next
find_round a name (entry e) rest = if same_string a e.name name then some (entry e) else rest
find_round a name at_end rest = some at_end
find_round a name malformed rest = some malformed

-- The loop of `cpio_find`; `none` where the rounds do not suffice.
pub find_loop : (rounds : ℕ) → Bytes → Reader → (name : List ℕ) → Option Next
find_loop zero a r name = none
find_loop (suc k) a r name =
    let (next, r') = next_in a r in find_round a name next (find_loop k a r' name)

-- Each entry has a header at least, so that there are fewer rounds than bytes.
pub find_from : (archive : Option Bytes) → Reader → (name : List ℕ) → Option Next
find_from none start name = some malformed
find_from (some a) start name = find_loop (suc start.size) a start name

pub cpio_find : Reader → (name : List ℕ) → Option Next
cpio_find r name =
    let start : Reader = record r { offset = 0; finished = false } in find_from r.archive start name
