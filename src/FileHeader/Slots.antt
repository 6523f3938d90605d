-- ===== src/FileHeader/Slots.antt =====
-- aeordb-lib/src/engine/file_header.rs: the two slots of the header, on a file of bytes. A `none`
-- of the whole is a panic; a read behind the end of the file is an I/O error.
use aeordb.Prelude.{ℕ, ◌+◌, ◌*◌, ◌-◌, ◌%◌, ◌^◌, Option, none, some, replicate, leb, if◌then◌else◌}
use aeordb.Bytes.{Bytes}
use aeordb.Bytes.File.{read_at, write_at}
use aeordb.Errors.{EngineResult, ok, err, io_error}
use aeordb.FileHeader.{FileHeader, serialize, deserialize, file_header_size}

-- The match on the two parsed slots.
unfoldable pub pick_slot :
    Option (EngineResult FileHeader)
    → Option (EngineResult FileHeader)
    → Option (EngineResult (FileHeader × ℕ))
pick_slot none b = none
pick_slot (some a) none = none
pick_slot (some (ok a)) (some (ok b)) =
    some (ok (if leb b.sequence a.sequence then (a, 0) else (b, 1)))
pick_slot (some (ok a)) (some (err e)) = some (ok (a, 0))
pick_slot (some (err e)) (some (ok b)) = some (ok (b, 1))
pick_slot (some (err e)) (some (err e')) = some (err e)

-- What follows the reading of the two slots.
unfoldable pub with_slots :
    (Bytes → ℕ) → Option Bytes → Option Bytes → Option (EngineResult (FileHeader × ℕ))
unfolding pick_slot
with_slots crc32 none slot_b = some (err io_error)
with_slots crc32 (some slot_a) none = some (err io_error)
with_slots crc32 (some slot_a) (some slot_b) =
    pick_slot (deserialize crc32 slot_a) (deserialize crc32 slot_b)

unfoldable pub read_active_header : (Bytes → ℕ) → Bytes → Option (EngineResult (FileHeader × ℕ))
read_active_header crc32 file =
    with_slots crc32 (read_at file 0 file_header_size)
      (read_at file file_header_size file_header_size)

-- The file with the bytes of a slot, or the panic of `serialize`.
unfoldable pub write_slot : Bytes → ℕ → FileHeader → Option Bytes → Option (Bytes × FileHeader)
write_slot file offset header none = none
write_slot file offset header (some bytes) = some (write_at file offset bytes, header)

-- The file and the header after the call.
unfoldable pub write_header_to_inactive_slot :
    (Bytes → ℕ) → Bytes → FileHeader → ℕ → Option (Bytes × FileHeader)
write_header_to_inactive_slot crc32 file header active_slot =
    let header = record header { sequence = (header.sequence + 1) % 2 ^ 64 } in
    let target_slot = 1 - active_slot in
    write_slot file (target_slot * file_header_size) header (serialize crc32 header)

unfoldable pub write_initial_header : (Bytes → ℕ) → Bytes → FileHeader → Option (Bytes × FileHeader)
write_initial_header crc32 file header =
    let file = write_at file file_header_size (replicate file_header_size 0) in
    let header = record header { sequence = 1 } in write_slot file 0 header (serialize crc32 header)
