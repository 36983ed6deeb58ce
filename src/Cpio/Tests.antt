-- ===== src/Cpio/Tests.antt =====
-- kernel/cpio.c at concrete inputs: an archive with the file `a`, of two bytes, and its trailer.
use la_os.Common.{ℕ, ◌≡◌, refl, true, false, ◌==◌, if◌then◌else◌, some, List, [], ◌∷◌, arith}
use la_os.Cpio.{
  Bytes, Reader, Entry, entry, at_end, hex_loop, hex32, same_bytes, cpio_reset, cpio_reader_init,
  read_header, header_of, no_nul, next_entry, next_header, next_in, cpio_reader_next, same_string,
  find_loop, find_from, cpio_find,
}
use la_os.Cpio.Bounds.{NextResult, cpio_reader_next-NextResult}
use la_os.Cpio.Files.{Searches, at_start, cpio_find-Searches}
use la_os.Cpio.Hex.{hex32-Spells}

abbrev archive : Bytes
archive i =
    if i == 1
    then 55
    else if i == 3
    then 55
    else if i == 5
    then 49
    else if i == 61
    then 50
    else if i == 101
    then 50
    else if i == 110
    then 97
    else if i == 111
    then 0
    else if i == 112
    then 104
    else if i == 113
    then 105
    else if i == 114
    then 0
    else if i == 115
    then 0
    else if i == 117
    then 55
    else if i == 119
    then 55
    else if i == 121
    then 49
    else if i == 217
    then 66
    else if i == 226
    then 84
    else if i == 227
    then 82
    else if i == 228
    then 65
    else if i == 229
    then 73
    else if i == 230
    then 76
    else if i == 231
    then 69
    else if i == 232
    then 82
    else if i == 233
    then 33
    else if i == 234
    then 33
    else if i == 235
    then 33
    else if i == 236
    then 0
    else if i == 237
    then 0
    else if i == 238
    then 0
    else if i == 239
    then 0
    else 48

abbrev reader : Reader
reader = record { archive = some archive; size = 240; offset = 0; finished = false }

opens : cpio_reader_init cpio_reset (some archive) 240 ≡ (true, reader)
unfolding cpio_reader_init same_bytes
opens = refl

abbrev file_a : Entry
file_a = record { name = 110; data_at = 112; size = 2; mode = 0 }

-- The file, and then the end.
gives_file : (cpio_reader_next reader).0 ≡ entry file_a
unfolding next_in read_header header_of hex32 hex_loop same_bytes next_header next_entry no_nul
gives_file = refl

abbrev name_a : List ℕ
name_a = 97 ∷ []

finds_file : cpio_find reader name_a ≡ some (entry file_a)
unfolding cpio_find find_from find_loop same_string next_in read_header header_of hex32 hex_loop
    same_bytes next_header next_entry no_nul
finds_file = refl

misses_file : cpio_find reader (98 ∷ []) ≡ some at_end
unfolding cpio_find find_from find_loop same_string next_in read_header header_of hex32 hex_loop
    same_bytes next_header next_entry no_nul
misses_file = refl

cpio_reader_next-NextResult_example : NextResult archive reader (cpio_reader_next reader)
cpio_reader_next-NextResult_example = cpio_reader_next-NextResult archive reader refl (omega arith)

cpio_find-Searches_example : Searches archive (at_start reader) name_a (cpio_find reader name_a)
cpio_find-Searches_example = cpio_find-Searches archive reader name_a refl (omega arith)

abbrev two : ℕ
two = 2

hex32-Spells_example : hex32 archive 54 ≡ some two
hex32-Spells_example =
    hex32-Spells archive 54 two
      (refl, (refl, (refl, (refl, (refl, (refl, (refl, (refl, omega arith)))))))) (omega arith)
