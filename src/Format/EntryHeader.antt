-- ===== src/Format/EntryHeader.antt =====
-- aeordb-lib/src/engine/entry_header.rs: the header of a log entry. `timestamp`, an `i64`, is kept as
-- its bit pattern. A reader is the list of the bytes that it has still to give.
pub mod RoundTrip
pub mod Length
pub mod Verify
use Prim.Native.Nat.{bit_and}
use aeordb.Prelude.{
  ℕ, ◌+◌, ◌%◌, ◌^◌, ◌<◌, ◌≡◌, Bool, true, false, not, Option, none, some, List, [], ◌∷◌, ◌++◌,
  length, take, drop, All, ltb, leb, ◌==◌, if◌then◌else◌,
}
use aeordb.Bytes.{Bytes, IsByte, to_le_bytes, from_le_bytes, byte_at, slice, bytes_eq}
use aeordb.Errors.{
  EngineError, EngineResult, ok, err, ◌>>=◌, ◌>>◌, guard, io_error, invalid_magic, corrupt_entry,
  invalid_input, invalid_hash_algorithm,
}
use aeordb.Format.HashAlgorithm
use aeordb.Format.HashAlgorithm.{HashAlgorithm, hash_length}
use aeordb.Format.Compression
use aeordb.Format.Compression.{CompressionAlgorithm}
use aeordb.Format.EntryType
use aeordb.Format.EntryType.{EntryType}

abbrev pub entry_magic : ℕ
entry_magic = 0x0AE012DB

abbrev pub fixed_header_size : ℕ
fixed_header_size = 31

abbrev pub max_key_or_value_bytes : ℕ
max_key_or_value_bytes = 2 ^ 30

pub record EntryHeader : Type 0 where
  pub entry_version : ℕ
  pub entry_type : EntryType
  pub flags : ℕ
  pub hash_algo : HashAlgorithm
  pub compression_algo : CompressionAlgorithm
  pub encryption_algo : ℕ
  pub key_length : ℕ
  pub value_length : ℕ
  pub timestamp : ℕ
  pub total_length : ℕ
  pub hash : Bytes

unfoldable pub header_size : EntryHeader → ℕ
header_size h = fixed_header_size + hash_length h.hash_algo

-- `flags & FLAG_SYSTEM != 0`
unfoldable pub is_system_entry : EntryHeader → Bool
is_system_entry h = not (bit_and h.flags 1 == 0)

-- The casts to `u32` and the sums wrap.
unfoldable pub compute_total_length : HashAlgorithm → ℕ → ℕ → EngineResult ℕ
compute_total_length algo key_length value_length = do
  guard (leb key_length max_key_or_value_bytes) invalid_input
  guard (leb value_length max_key_or_value_bytes) invalid_input
  let size = fixed_header_size + hash_length algo
  ok ((size % 2 ^ 32 + key_length % 2 ^ 32 + value_length % 2 ^ 32) % 2 ^ 32)

unfoldable pub compute_hash :
    (Bytes → Bytes) → EntryType → Bytes → Bytes → HashAlgorithm → EngineResult Bytes
compute_hash blake3 entry_type key value algorithm =
    HashAlgorithm.compute_hash blake3 algorithm (EntryType.to_u8 entry_type ∷ key ++ value)

verify_with : EngineResult Bytes → Bytes → Bool
verify_with (ok computed) hash = bytes_eq computed hash
verify_with (err e) hash = false

unfoldable pub verify : (Bytes → Bytes) → EntryHeader → Bytes → Bytes → Bool
unfolding verify_with
verify blake3 h key value =
    verify_with (compute_hash blake3 h.entry_type key value h.hash_algo) h.hash

unfoldable pub serialize : EntryHeader → Bytes
serialize h =
    to_le_bytes 4 entry_magic
    ++ (h.entry_version ∷ EntryType.to_u8 h.entry_type ∷ h.flags ∷ [])
    ++ to_le_bytes 2 (HashAlgorithm.to_u16 h.hash_algo)
    ++ (Compression.to_u8 h.compression_algo ∷ h.encryption_algo ∷ [])
    ++ to_le_bytes 4 h.key_length
    ++ to_le_bytes 4 h.value_length
    ++ to_le_bytes 8 h.timestamp
    ++ to_le_bytes 4 h.total_length
    ++ h.hash

-- `reader.read_exact(buf)`: what is read and what is left.
unfoldable pub read_exact : ℕ → Bytes → EngineResult (Bytes × Bytes)
read_exact n input = if leb n (length input) then ok (take n input, drop n input) else err io_error

abbrev pub ok_or {ℓ} : {A : Type ℓ} → Option A → EngineError → EngineResult A
ok_or none e = err e
ok_or (some a) e = ok a

unfoldable pub deserialize : Bytes → EngineResult (EntryHeader × Bytes)
deserialize reader = do
  (fixed_buffer, rest) ← read_exact fixed_header_size reader
  guard (from_le_bytes (slice fixed_buffer 0 4) == entry_magic) invalid_magic
  entry_type ← EntryType.from_u8 (byte_at fixed_buffer 5)
  let hash_algo_raw = from_le_bytes (slice fixed_buffer 7 2)
  hash_algo ← ok_or (HashAlgorithm.from_u16 hash_algo_raw) (invalid_hash_algorithm hash_algo_raw)
  compression_algo ← ok_or (Compression.from_u8 (byte_at fixed_buffer 9)) corrupt_entry
  (hash, rest') ← read_exact (hash_length hash_algo) rest
  ok (
    record {
      entry_version = byte_at fixed_buffer 4;
      entry_type = entry_type;
      flags = byte_at fixed_buffer 6;
      hash_algo = hash_algo;
      compression_algo = compression_algo;
      encryption_algo = byte_at fixed_buffer 10;
      key_length = from_le_bytes (slice fixed_buffer 11 4);
      value_length = from_le_bytes (slice fixed_buffer 15 4);
      timestamp = from_le_bytes (slice fixed_buffer 19 8);
      total_length = from_le_bytes (slice fixed_buffer 27 4);
      hash = hash;
    },
    rest',
  )

-- The ranges of the field types, and a hash as long as its algorithm says.
pub record IsValid (h : EntryHeader) : Type 0 where
  pub entry_version_fits : h.entry_version < 2 ^ 8
  pub flags_fits : h.flags < 2 ^ 8
  pub encryption_algo_fits : h.encryption_algo < 2 ^ 8
  pub key_length_fits : h.key_length < 2 ^ 32
  pub value_length_fits : h.value_length < 2 ^ 32
  pub timestamp_fits : h.timestamp < 2 ^ 64
  pub total_length_fits : h.total_length < 2 ^ 32
  pub hash_fits : length h.hash ≡ hash_length h.hash_algo
