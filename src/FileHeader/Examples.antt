-- ===== src/FileHeader/Examples.antt =====
-- The header slots at concrete values.
use aeordb.Prelude.{◌≤◌, ◌≡◌, refl, some, none, [], ◌++◌, length, replicate, arith}
use aeordb.Bytes.{Bytes, bytes_eq, fitted_hash}
use aeordb.Bytes.Checksum.{byte_sum, byte_sum-lt}
use aeordb.Bytes.File.{write_at}
use aeordb.Errors.{ok, err, invalid_entry_version}
use aeordb.Format.HashAlgorithm.{blake3_256, sha512, hash_length}
use aeordb.FileHeader.{
  FileHeader, IsValid, new, serialize, deserialize, file_header_size, header_region_size,
  file_magic, leading_fields, middle_fields, fields, checked_part,
}
use aeordb.FileHeader.RoundTrip.{slot, deserialize-serialize_header}
use aeordb.FileHeader.Slots.{
  read_active_header, write_slot, write_initial_header, write_header_to_inactive_slot,
}
use aeordb.FileHeader.Commit.{read_active_header-write_header_to_inactive_slot}
use aeordb.FileHeader.Crash.{History, read_active_header-History}
use aeordb.FileHeader.Crash.History.{created, written, torn}

abbrev header : FileHeader
unfolding new
header = new blake3_256 1700000000000

header-IsValid : IsValid header
unfolding hash_length new
header-IsValid = omega arith

new_sha512 : serialize (λ bytes. 7) (new sha512 0) ≡ none
unfolding serialize new hash_length
new_sha512 = refl

deserialize-serialize_header_example :
    (bytes : Bytes) × (serialize (byte_sum) header ≡ some bytes)
    × (length bytes ≡ file_header_size)
    × (deserialize (byte_sum) bytes ≡ some (ok header))
deserialize-serialize_header_example =
    deserialize-serialize_header (byte_sum) byte_sum-lt header header-IsValid

-- The header that is written first, a later state of it, and the one that is written next.
abbrev first : FileHeader
first = record header { sequence = 1 }

abbrev update : FileHeader
update = record header { sequence = 1; entry_count = 5 }

abbrev second : FileHeader
second = record header { sequence = 2; entry_count = 5 }

update-IsValid : IsValid update
unfolding hash_length new
update-IsValid = omega arith

abbrev slot_of : FileHeader → Bytes
slot_of = slot byte_sum byte_sum-lt

abbrev new_file : Bytes
new_file = slot_of first ++ replicate 256 0

write_new_file : write_initial_header byte_sum [] header ≡ some (new_file, first)
unfolding write_initial_header write_slot write_at serialize checked_part fields leading_fields
    middle_fields fitted_hash new hash_length
write_new_file = refl

two_slots : Bytes
two_slots = slot_of first ++ slot_of second

write_second : write_header_to_inactive_slot byte_sum new_file update 0 ≡ some (two_slots, second)
unfolding write_header_to_inactive_slot write_slot write_at serialize checked_part fields
    leading_fields middle_fields fitted_hash new hash_length two_slots
write_second = refl

new_file-History : History byte_sum byte_sum-lt new_file first 0
new_file-History = created [] header new_file first header-IsValid write_new_file

read_active_header-write_header_to_inactive_slot_example :
    (file' : Bytes) × (header' : FileHeader) × (write_header_to_inactive_slot byte_sum new_file
        update 0
      ≡ some (file', header'))
    × (header' ≡ record update { sequence = 2 })
    × (header_region_size ≤ length file')
    × (read_active_header byte_sum file' ≡ some (ok (header', 1)))
unfolding checked_part fields leading_fields fitted_hash header hash_length middle_fields new
read_active_header-write_header_to_inactive_slot_example =
    read_active_header-write_header_to_inactive_slot byte_sum byte_sum-lt new_file first update 0
      (omega arith)
      (read_active_header-History byte_sum byte_sum-lt new_file first 0 new_file-History)
      update-IsValid refl (omega arith)

two_slots-History : History byte_sum byte_sum-lt two_slots second 1
unfolding new
two_slots-History =
    written new_file first update 0 two_slots second new_file-History update-IsValid refl
      (omega arith) write_second

-- A slot of which only the magic was written.
abbrev torn_slot : Bytes
torn_slot = file_magic ++ replicate 252 0

torn_slot_refused : deserialize byte_sum torn_slot ≡ some (err (invalid_entry_version 0))
unfolding deserialize bytes_eq
torn_slot_refused = refl

read_active_header-History_example :
    read_active_header byte_sum (write_at two_slots 0 torn_slot) ≡ some (ok (second, 1))
read_active_header-History_example =
    read_active_header-History byte_sum byte_sum-lt (write_at two_slots 0 torn_slot) second 1 (
      torn two_slots second 1 torn_slot (invalid_entry_version 0) two_slots-History refl
        torn_slot_refused)
