-- ===== src/Cpio/Bounds.antt =====
-- The entries that `cpio_reader_next` of kernel/cpio.c gives lie in the archive.
use la_os.Common.{
  ℕ, zero, suc, ◌+◌, ◌-◌, ◌%◌, ◌^◌, ◌≤◌, ◌<◌, ◌≡◌, ◌≢◌, ◌∙◌, sym, ap, subst, refl, Bool, true,
  false, ◌&&◌, ◌==◌, not, ltb, if◌then◌else◌, Option, none, some, arith, Bool-cases, inl, inr,
}
use la_os.Cpio.{
  Bytes, Entry, Reader, Next, entry, at_end, malformed, Header, header_of, read_header, no_nul,
  cpio_hdr_len, align4, same_bytes, trailer, next_entry, next_header, next_in, cpio_reader_next,
  next_of, magic, hex32,
}

-- A name of at least one byte stands at the entry's name and ends with a NUL, with no NUL in it;
-- behind it, at a multiple of 4, is the content, which ends in the archive.
pub record IsInside (a : Bytes) (size : ℕ) (e : Entry) (len : ℕ) : Type 0 where
  pub ends : a (e.name + len) ≡ 0
  pub in_name : (i : ℕ) → i < len → a (e.name + i) ≢ 0
  pub behind : e.name + len < e.data_at
  pub inside : e.data_at + e.size ≤ size
  pub aligned : e.data_at % 4 ≡ 0

-- The reader goes on behind the content, at a multiple of 4 in the archive.
pub record GoesOn (e : Entry) (r r' : Reader) : Type 0 where
  pub archive : r'.archive ≡ r.archive
  pub size : r'.size ≡ r.size
  pub finished : r'.finished ≡ r.finished
  pub starts : e.name ≡ r.offset + cpio_hdr_len
  pub advances : e.data_at + e.size ≤ r'.offset
  pub bounded : r'.offset ≤ r.size
  pub aligned : r'.offset % 4 ≡ 0

-- An error leaves the reader as it is, and the end only sets the mark.
pub data NextResult (a : Bytes) (r : Reader) : Next × Reader → Type 0 where
  gives :
      (e : Entry) (r' : Reader) (len : ℕ)
      → IsInside a r.size e len
      → GoesOn e r r'
      → NextResult a r (entry e, r')
  over : r.finished ≡ true → NextResult a r (at_end, r)
  ends : NextResult a r (at_end, record r { finished = true })
  fails : NextResult a r (malformed, r)

if-NextResult :
    (a : Bytes) (r : Reader) (b : Bool) (x y : Next × Reader)
    → (b ≡ true → NextResult a r x)
    → (b ≡ false → NextResult a r y)
    → NextResult a r (if b then x else y)
if-NextResult a r true x y p q = p refl
if-NextResult a r false x y p q = q refl

no_nul-none :
    (count : ℕ) (a : Bytes) (at i : ℕ) → no_nul count a at ≡ true → i < count → a (at + i) ≢ 0
unfolding no_nul
no_nul-none zero a at i all lt z = omega arith
no_nul-none (suc count) a at zero all lt z = ground (arith, first at z)
  where
    first : (at : ℕ) → a (at + 0) ≡ 0 → a at ≡ 0
    first at z = ap a (omega arith) ∙ z
no_nul-none (suc count) a at (suc i) all lt z =
    no_nul-none count a (at + 1) i (ground arith) (omega arith) (ap a (omega arith) ∙ z)

-- The entry of a header whose checks have all passed.
entry-NextResult :
    (a : Bytes) (r : Reader) (h : Header)
    → r.size < 2 ^ 32
    → 0 < h.namesize
    → r.offset + cpio_hdr_len ≤ r.size
    → a (r.offset + cpio_hdr_len + (h.namesize - 1)) ≡ 0
    → no_nul (h.namesize - 1) a (r.offset + cpio_hdr_len) ≡ true
    → align4 (r.offset + cpio_hdr_len + h.namesize) ≤ r.size
    → h.filesize ≤ r.size - align4 (r.offset + cpio_hdr_len + h.namesize)
    → align4 (align4 (r.offset + cpio_hdr_len + h.namesize) + h.filesize) ≤ r.size
    → NextResult a r (
      entry (record {
        name = r.offset + cpio_hdr_len;
        data_at = align4 (r.offset + cpio_hdr_len + h.namesize);
        size = h.filesize;
        mode = h.mode;
      }),
      record r {
        offset = align4 (align4 (r.offset + cpio_hdr_len + h.namesize) + h.filesize) % 2 ^ 32;
      },
    )
entry-NextResult a r h small named room nul clean start fits next =
    gives _ _ (h.namesize - 1)
      (record {
        ends = nul;
        in_name = λ i lt. no_nul-none (h.namesize - 1) a (r.offset + cpio_hdr_len) i clean lt;
        behind = omega arith;
        inside = omega arith;
        aligned = omega arith;
      })
      (record {
        archive = refl;
        size = refl;
        finished = refl;
        starts = refl;
        advances = omega arith;
        bounded = omega arith;
        aligned = omega arith;
      })

next_entry-NextResult :
    (a : Bytes) (r : Reader) (h : Header)
    → r.size < 2 ^ 32
    → 0 < h.namesize
    → r.offset + cpio_hdr_len ≤ r.size
    → NextResult a r (next_entry a r h)
unfolding next_entry
next_entry-NextResult a r h small named room =
    let name_start = r.offset + cpio_hdr_len in
    let data_start = align4 (name_start + h.namesize) in
    let next = align4 (data_start + h.filesize) in
    let bad : Next × Reader = (malformed, r) in
    if-NextResult a r (ltb (r.size - name_start) h.namesize) bad _ (λ z. fails)
      (λ name_fits.
        if-NextResult a r (not (a (name_start + (h.namesize - 1)) == 0)) bad _ (λ z. fails)
          (λ nul.
            if-NextResult a r (not (no_nul (h.namesize - 1) a name_start)) bad _ (λ z. fails)
              (λ clean.
                if-NextResult a r (ltb r.size data_start) bad _ (λ z. fails)
                  (λ start.
                    if-NextResult a r (ltb (r.size - data_start) h.filesize) bad _ (λ z. fails)
                      (λ fits.
                        if-NextResult a r (ltb r.size next) bad _ (λ z. fails)
                          (λ next_fits.
                            if-NextResult a r (h.namesize == 11 && same_bytes a name_start trailer)
                              _ _
                              (λ z.
                                if-NextResult a r (h.filesize == 0) _ bad (λ z'. ends)
                                  (λ z'. fails))
                              (λ z.
                                entry-NextResult a r h small named room (ground arith)
                                  (ground arith) (ground arith) (ground arith) (ground arith))))))))

header_of-NextResult :
    (a : Bytes) (r : Reader) (n f m : Option ℕ)
    → r.size < 2 ^ 32
    → r.offset + cpio_hdr_len ≤ r.size
    → NextResult a r (next_header a r (header_of n f m))
unfolding header_of next_header
header_of-NextResult a r none f m small room = fails
header_of-NextResult a r (some n) none m small room = fails
header_of-NextResult a r (some n) (some f) none small room = fails
header_of-NextResult a r (some n) (some f) (some m) small room = elim (Bool-cases (n == 0)) [
  | inl empty ↦ rw empty fails
  | inr named ↦
      let h : Header = record { namesize = n; filesize = f; mode = m } in
      rw named (next_entry-NextResult a r h small (ground arith) room)
]

pub next_in-NextResult : (a : Bytes) (r : Reader) → r.size < 2 ^ 32 → NextResult a r (next_in a r)
unfolding next_in read_header next_header
next_in-NextResult a r small =
    let bad : Next × Reader = (malformed, r) in
    if-NextResult a r r.finished (at_end, r) _ over
      (λ z.
        if-NextResult a r (ltb r.size r.offset) bad _ (λ z'. fails)
          (λ before.
            if-NextResult a r (ltb (r.size - r.offset) cpio_hdr_len) bad _ (λ z'. fails)
              (λ room. elim (Bool-cases (same_bytes a r.offset magic)) [
                | inl has_magic ↦ rw has_magic (
                    header_of-NextResult a r (hex32 a (r.offset + 94)) (hex32 a (r.offset + 54))
                      (hex32 a (r.offset + 14)) small (ground arith))
                | inr no_magic ↦ rw no_magic fails
              ])))

-- Of an archive with a 32-bit size, `cpio_reader_next` gives only entries whose name, with one NUL
-- at its end, and whose content lie inside the archive in this order, and then stands behind the
-- content. At the end and on an error the reader keeps its place.
pub cpio_reader_next-NextResult :
    (a : Bytes) (r : Reader)
    → r.archive ≡ some a
    → r.size < 2 ^ 32
    → NextResult a r (cpio_reader_next r)
cpio_reader_next-NextResult a r is_open small =
    subst (λ o. NextResult a r (next_of o r)) (sym is_open) (next_in-NextResult a r small)
