-- ===== src/HotTail.antt =====
-- aeordb-lib/src/engine/hot_tail.rs: the tail of the database file, which carries the index writes
-- that are not in their pages yet and the voids. The CRC is a parameter.
pub mod Records
pub mod RoundTrip
pub mod File
mod Examples
use aeordb.Prelude.{
  ℕ, zero, suc, ◌+◌, ◌*◌, ◌-◌, ◌%◌, ◌^◌, ◌<◌, min, Bool, not, Option, none, some, List, [], ◌∷◌,
  ◌++◌, length, take, drop, replicate, All, ltb, leb, ◌==◌, if◌then◌else◌,
}
use aeordb.Bytes.{Bytes, to_le_bytes, from_le_bytes, byte_at, slice, bytes_eq, fitted_hash}
use aeordb.Bytes.File.{read_at, write_at}
use aeordb.Kv.Entry.{KvEntry}

abbrev pub hot_tail_magic : Bytes
hot_tail_magic = 0xAE ∷ 0x01 ∷ 0x7D ∷ 0xB1 ∷ 0x0D ∷ []

abbrev pub hot_tail_format_version : ℕ
hot_tail_format_version = 1

abbrev pub write_record_version : ℕ
write_record_version = 1

abbrev pub void_record_version : ℕ
void_record_version = 1

abbrev pub hot_tail_header_size : ℕ
hot_tail_header_size = 5 + 1 + 4 + 4 + 4

abbrev pub write_record_size : ℕ → ℕ
write_record_size hash_length = 1 + hash_length + 1 + 8 + 4

abbrev pub void_record_size : ℕ
void_record_size = 1 + 8 + 4

pub record VoidRecord : Type 0 where
  pub offset : ℕ
  pub size : ℕ

pub record HotTailPayload : Type 0 where
  pub writes : List KvEntry
  pub voids : List VoidRecord

unfoldable pub write_record : ℕ → KvEntry → Bytes
write_record hash_length entry =
    write_record_version
    ∷ (fitted_hash hash_length entry.hash
        ++ (entry.type_flags ∷ (to_le_bytes 8 entry.offset ++ to_le_bytes 4 entry.total_length)))

unfoldable pub void_record : VoidRecord → Bytes
void_record v = void_record_version ∷ (to_le_bytes 8 v.offset ++ to_le_bytes 4 v.size)

unfoldable pub write_records : ℕ → List KvEntry → Bytes
write_records hash_length [] = []
write_records hash_length (entry ∷ entries) =
    write_record hash_length entry ++ write_records hash_length entries

unfoldable pub void_records : List VoidRecord → Bytes
void_records [] = []
void_records (v ∷ voids) = void_record v ++ void_records voids

-- The header before its CRC. The counts are cast to `u32`.
unfoldable pub counts_header : HotTailPayload → Bytes
counts_header payload =
    hot_tail_magic
    ++ (hot_tail_format_version
        ∷ (to_le_bytes 4 (length payload.writes) ++ to_le_bytes 4 (length payload.voids)))

unfoldable pub serialize_hot_tail : (Bytes → ℕ) → HotTailPayload → ℕ → Bytes
serialize_hot_tail crc32 payload hash_length =
    counts_header payload
    ++ (to_le_bytes 4 (crc32 (counts_header payload))
        ++ (write_records hash_length payload.writes ++ void_records payload.voids))

-- One round of the first loop of `deserialize_hot_tail`, and the cursor after it.
unfoldable pub read_write_record : ℕ → Bytes → ℕ → KvEntry × ℕ
read_write_record hash_length bytes cursor = (
  record {
    type_flags = byte_at bytes (cursor + 1 + hash_length);
    hash = slice bytes (cursor + 1) hash_length;
    offset = from_le_bytes (slice bytes (cursor + 1 + hash_length + 1) 8);
    total_length = from_le_bytes (slice bytes (cursor + 1 + hash_length + 1 + 8) 4);
  },
  cursor + 1 + hash_length + 1 + 8 + 4,
)

unfoldable pub read_void_record : Bytes → ℕ → VoidRecord × ℕ
read_void_record bytes cursor = (
  record {
    offset = from_le_bytes (slice bytes (cursor + 1) 8);
    size = from_le_bytes (slice bytes (cursor + 1 + 8) 4);
  },
  cursor + 1 + 8 + 4,
)

unfoldable pub read_write_records : ℕ → ℕ → Bytes → ℕ → List KvEntry × ℕ
read_write_records hash_length zero bytes cursor = ([], cursor)
read_write_records hash_length (suc n) bytes cursor =
    let (entry, next) = read_write_record hash_length bytes cursor in
    let (entries, end) = read_write_records hash_length n bytes next in (entry ∷ entries, end)

unfoldable pub read_void_records : ℕ → Bytes → ℕ → List VoidRecord × ℕ
read_void_records zero bytes cursor = ([], cursor)
read_void_records (suc n) bytes cursor =
    let (v, next) = read_void_record bytes cursor in
    let (voids, end) = read_void_records n bytes next in (v ∷ voids, end)

unfoldable pub read_records : ℕ → ℕ → ℕ → Bytes → HotTailPayload
read_records hash_length write_count void_count bytes =
    let (writes, cursor) = read_write_records hash_length write_count bytes hot_tail_header_size in
    record { writes = writes; voids = (read_void_records void_count bytes cursor).0 }

unfoldable pub deserialize_hot_tail : (Bytes → ℕ) → Bytes → ℕ → Option HotTailPayload
deserialize_hot_tail crc32 bytes hash_length =
    let write_count = from_le_bytes (slice bytes 6 4) in
    let void_count = from_le_bytes (slice bytes 10 4) in
    let expected_len =
      hot_tail_header_size
      + write_count * write_record_size hash_length
      + void_count * void_record_size in
    if ltb (length bytes) hot_tail_header_size
    then none
    else if not (bytes_eq (slice bytes 0 5) hot_tail_magic)
    then none
    else if not (byte_at bytes 5 == hot_tail_format_version)
    then none
    else if not (from_le_bytes (slice bytes 14 4) == crc32 (slice bytes 0 14))
    then none
    else if ltb (length bytes) expected_len
    then none
    else some (read_records hash_length write_count void_count bytes)

-- The new file, and the place behind the hot tail.
unfoldable pub write_hot_tail : (Bytes → ℕ) → Bytes → ℕ → HotTailPayload → ℕ → Bytes × ℕ
write_hot_tail crc32 file offset payload hash_length =
    let bytes = serialize_hot_tail crc32 payload hash_length in
    (write_at file offset bytes, offset + length bytes)

-- What follows the reading of the body.
with_body : (Bytes → ℕ) → ℕ → Bytes → Option Bytes → Option HotTailPayload
with_body crc32 hash_length header none = none
with_body crc32 hash_length header (some body) =
    deserialize_hot_tail crc32 (header ++ body) hash_length

-- What follows the reading of the header.
with_header : (Bytes → ℕ) → ℕ → Bytes → ℕ → Option Bytes → Option HotTailPayload
unfolding with_body
with_header crc32 hash_length file offset none = none
with_header crc32 hash_length file offset (some header) =
    let write_count = from_le_bytes (slice header 6 4) in
    let void_count = from_le_bytes (slice header 10 4) in
    let body_len = write_count * write_record_size hash_length + void_count * void_record_size in
    if not (bytes_eq (slice header 0 5) hot_tail_magic)
    then none
    else if not (byte_at header 5 == hot_tail_format_version)
    then none
    else if not (crc32 (slice header 0 14) == from_le_bytes (slice header 14 4))
    then none
    else with_body crc32 hash_length header (read_at file (offset + hot_tail_header_size) body_len)

unfoldable pub read_hot_tail : (Bytes → ℕ) → Bytes → ℕ → ℕ → Option HotTailPayload
unfolding with_header
read_hot_tail crc32 file offset hash_length =
    with_header crc32 hash_length file offset (read_at file offset hot_tail_header_size)
