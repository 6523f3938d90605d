-- ===== src/FileHeader.antt =====
-- aeordb-lib/src/engine/file_header.rs: the header of a database file. `created_at` and `updated_at`,
-- `i64`, are kept as their bit patterns, and crc32fast is a parameter. `none` is a panic.
pub mod Fields
pub mod RoundTrip
pub mod Slots
pub mod Commit
pub mod Crash
mod Examples
use aeordb.Prelude.{
  ℕ, ◌+◌, ◌-◌, ◌*◌, ◌<◌, ◌^◌, ◌≡◌, min, Bool, false, not, Option, none, some, [], ◌∷◌, ◌++◌, length,
  take, replicate, ltb, ◌==◌, if◌then◌else◌,
}
use aeordb.Bytes.{Bytes, to_le_bytes, from_le_bytes, byte_at, slice, bytes_eq, fitted_hash}
use aeordb.Errors.{
  EngineResult, ok, err, invalid_magic, invalid_entry_version, invalid_hash_algorithm,
  corrupt_entry,
}
use aeordb.Format.HashAlgorithm
use aeordb.Format.HashAlgorithm.{HashAlgorithm, hash_length}

abbrev pub file_header_size : ℕ
file_header_size = 256

abbrev pub header_region_size : ℕ
header_region_size = file_header_size * 2

abbrev pub file_magic : Bytes
file_magic = 65 ∷ 69 ∷ 79 ∷ 82 ∷ []

abbrev pub header_crc_size : ℕ
header_crc_size = 4

abbrev pub supported_header_version : ℕ
supported_header_version = 3

pub record FileHeader : Type 0 where
  pub header_version : ℕ
  pub hash_algo : HashAlgorithm
  pub sequence : ℕ
  pub created_at : ℕ
  pub updated_at : ℕ
  pub kv_block_offset : ℕ
  pub kv_block_length : ℕ
  pub kv_block_version : ℕ
  pub nvt_offset : ℕ
  pub nvt_length : ℕ
  pub nvt_version : ℕ
  pub head_hash : Bytes
  pub entry_count : ℕ
  pub resize_in_progress : Bool
  pub buffer_kvs_offset : ℕ
  pub buffer_nvt_offset : ℕ
  pub hot_tail_offset : ℕ
  pub kv_block_stage : ℕ
  pub resize_target_stage : ℕ
  pub backup_type : ℕ
  pub base_hash : Bytes
  pub target_hash : Bytes

-- `now` is `chrono::Utc::now().timestamp_millis()`.
unfoldable pub new : HashAlgorithm → ℕ → FileHeader
new hash_algo now = record {
  header_version = supported_header_version;
  hash_algo = hash_algo;
  sequence = 0;
  created_at = now;
  updated_at = now;
  kv_block_offset = 0;
  kv_block_length = 0;
  kv_block_version = 1;
  nvt_offset = 0;
  nvt_length = 0;
  nvt_version = 1;
  head_hash = replicate (hash_length hash_algo) 0;
  entry_count = 0;
  resize_in_progress = false;
  buffer_kvs_offset = 0;
  buffer_nvt_offset = 0;
  hot_tail_offset = 0;
  kv_block_stage = 0;
  resize_target_stage = 0;
  backup_type = 0;
  base_hash = replicate (hash_length hash_algo) 0;
  target_hash = replicate (hash_length hash_algo) 0;
}

-- The fields before the first hash.
unfoldable pub leading_fields : FileHeader → Bytes
leading_fields h =
    file_magic
    ++ (h.header_version ∷ [])
    ++ to_le_bytes 2 (HashAlgorithm.to_u16 h.hash_algo)
    ++ to_le_bytes 8 h.sequence
    ++ to_le_bytes 8 h.created_at
    ++ to_le_bytes 8 h.updated_at
    ++ to_le_bytes 8 h.kv_block_offset
    ++ to_le_bytes 8 h.kv_block_length
    ++ (h.kv_block_version ∷ [])
    ++ to_le_bytes 8 h.nvt_offset
    ++ to_le_bytes 8 h.nvt_length
    ++ (h.nvt_version ∷ [])

-- The fields between the first hash and the other two.
unfoldable pub middle_fields : FileHeader → Bytes
middle_fields h =
    to_le_bytes 8 h.entry_count
    ++ ((if h.resize_in_progress then 1 else 0) ∷ [])
    ++ to_le_bytes 8 h.buffer_kvs_offset
    ++ to_le_bytes 8 h.buffer_nvt_offset
    ++ to_le_bytes 8 h.hot_tail_offset
    ++ (h.kv_block_stage ∷ h.resize_target_stage ∷ h.backup_type ∷ [])

unfoldable pub fields : FileHeader → Bytes
fields h =
    let hl = hash_length h.hash_algo in
    leading_fields h
    ++ (fitted_hash hl h.head_hash
        ++ (middle_fields h ++ (fitted_hash hl h.base_hash ++ fitted_hash hl h.target_hash)))

-- The bytes before the CRC: a buffer of zeros with the fields written to its start.
unfoldable pub checked_part : FileHeader → Bytes
checked_part h =
    take (file_header_size - header_crc_size) (fields h ++ replicate file_header_size 0)

-- The last hash is copied to offset 101 + 2 * hash_length, and the copy panics behind the buffer.
unfoldable pub serialize : (Bytes → ℕ) → FileHeader → Option Bytes
serialize crc32 h =
    let hl = hash_length h.hash_algo in
    if ltb file_header_size (101 + 2 * hl + min hl (length h.target_hash))
    then none
    else some (checked_part h ++ to_le_bytes 4 (crc32 (checked_part h)))

-- The eight bytes at an offset.
abbrev pub u64_at : Bytes → ℕ → ℕ
u64_at bytes offset = from_le_bytes (slice bytes offset 8)

-- The fields of a checked slot. The one after the first hash starts at 65 + hash_length.
unfoldable pub read_fields : HashAlgorithm → Bytes → FileHeader
read_fields algo bytes =
    let hl = hash_length algo in
    let middle = 65 + hl in
    record {
      header_version = byte_at bytes 4;
      hash_algo = algo;
      sequence = u64_at bytes 7;
      created_at = u64_at bytes 15;
      updated_at = u64_at bytes 23;
      kv_block_offset = u64_at bytes 31;
      kv_block_length = u64_at bytes 39;
      kv_block_version = byte_at bytes 47;
      nvt_offset = u64_at bytes 48;
      nvt_length = u64_at bytes 56;
      nvt_version = byte_at bytes 64;
      head_hash = slice bytes 65 hl;
      entry_count = u64_at bytes middle;
      resize_in_progress = not (byte_at bytes (middle + 8) == 0);
      buffer_kvs_offset = u64_at bytes (middle + 9);
      buffer_nvt_offset = u64_at bytes (middle + 17);
      hot_tail_offset = u64_at bytes (middle + 25);
      kv_block_stage = byte_at bytes (middle + 33);
      resize_target_stage = byte_at bytes (middle + 34);
      backup_type = byte_at bytes (middle + 35);
      base_hash = slice bytes (middle + 36) hl;
      target_hash = slice bytes (middle + 36 + hl) hl;
    }

-- What follows the reading of the algorithm: the slice of the last hash panics behind the slot.
unfoldable pub with_algorithm : Bytes → Option HashAlgorithm → Option (EngineResult FileHeader)
with_algorithm bytes none = some (err (invalid_hash_algorithm (from_le_bytes (slice bytes 5 2))))
with_algorithm bytes (some algo) =
    if ltb file_header_size (101 + 3 * hash_length algo)
    then none
    else some (ok (read_fields algo bytes))

-- Of a slot, which has `file_header_size` bytes.
unfoldable pub deserialize : (Bytes → ℕ) → Bytes → Option (EngineResult FileHeader)
deserialize crc32 bytes =
    let header_version = byte_at bytes 4 in
    let checked = file_header_size - header_crc_size in
    if not (bytes_eq (slice bytes 0 4) file_magic)
    then some (err invalid_magic)
    else if not (header_version == supported_header_version)
    then some (err (invalid_entry_version header_version))
    else if not (from_le_bytes (slice bytes checked 4) == crc32 (slice bytes 0 checked))
    then some (err corrupt_entry)
    else with_algorithm bytes (HashAlgorithm.from_u16 (from_le_bytes (slice bytes 5 2)))

-- The ranges of the field types, the version that is supported, and hashes of 32 bytes.
pub record IsValid (h : FileHeader) : Type 0 where
  pub version_supported : h.header_version ≡ supported_header_version
  pub short_hash : hash_length h.hash_algo ≡ 32
  pub sequence_fits : h.sequence < 2 ^ 64
  pub created_at_fits : h.created_at < 2 ^ 64
  pub updated_at_fits : h.updated_at < 2 ^ 64
  pub kv_block_offset_fits : h.kv_block_offset < 2 ^ 64
  pub kv_block_length_fits : h.kv_block_length < 2 ^ 64
  pub nvt_offset_fits : h.nvt_offset < 2 ^ 64
  pub nvt_length_fits : h.nvt_length < 2 ^ 64
  pub head_hash_fits : length h.head_hash ≡ 32
  pub entry_count_fits : h.entry_count < 2 ^ 64
  pub buffer_kvs_offset_fits : h.buffer_kvs_offset < 2 ^ 64
  pub buffer_nvt_offset_fits : h.buffer_nvt_offset < 2 ^ 64
  pub hot_tail_offset_fits : h.hot_tail_offset < 2 ^ 64
  pub base_hash_fits : length h.base_hash ≡ 32
  pub target_hash_fits : length h.target_hash ≡ 32
