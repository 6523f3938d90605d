-- ===== src/Records/File.antt =====
-- aeordb-lib/src/engine/file_record.rs: the record of a file. Strings are their bytes. The clock is a
-- parameter.
pub mod RoundTrip
use aeordb.Prelude.{
  ℕ, zero, suc, ◌+◌, ◌-◌, ◌<◌, ◌≤◌, ◌^◌, ◌≡◌, ◌≢◌, true, Option, none, some, List, [], ◌∷◌, ◌++◌,
  length, All, leb, ◌==◌, if◌then◌else◌,
}
use aeordb.Prelude.Int.{ℤ, to_bits, from_bits, IsI64}
use aeordb.Bytes.{Bytes, to_le_bytes}
use aeordb.Bytes.Readers.{read_u16, read_u32, read_u64, read_i64, read_bytes, read_string}
use aeordb.Errors.{EngineResult, ok, err, ◌>>=◌, ◌>>◌, guard, invalid_input, invalid_entry_version}
use aeordb.Strings.Utf8.{is_utf8}
use aeordb.Directory.{content_type_bytes, read_content_type, u16_max}
use aeordb.Merge.Types.{FileRecord}

abbrev pub u32_max : ℕ
u32_max = 2 ^ 32 - 1

-- `now` is `chrono::Utc::now().timestamp_millis()`.
unfoldable pub new : Bytes → Option Bytes → ℕ → List Bytes → ℤ → FileRecord
new path content_type total_size chunk_hashes now = record {
  path = path;
  content_type = content_type;
  total_size = total_size;
  created_at = now;
  updated_at = now;
  metadata = [];
  content_hash = [];
  chunk_hashes = chunk_hashes;
}

unfoldable pub all_hashes : List Bytes → Bytes
all_hashes [] = []
all_hashes (hash ∷ hashes) = hash ++ all_hashes hashes

-- The bytes of a record that passes the tests.
unfoldable pub file_fields : FileRecord → Bytes
file_fields r =
    let content_type = content_type_bytes r.content_type in
    to_le_bytes 2 (length r.path)
    ++ (r.path
        ++ (to_le_bytes 2 (length content_type)
            ++ (content_type
                ++ (to_le_bytes 8 r.total_size
                    ++ (to_le_bytes 8 (to_bits r.created_at)
                        ++ (to_le_bytes 8 (to_bits r.updated_at)
                            ++ (r.content_hash
                                ++ (to_le_bytes 4 (length r.metadata)
                                    ++ (r.metadata
                                        ++ (to_le_bytes 4 (length r.chunk_hashes)
                                            ++ all_hashes r.chunk_hashes))))))))))

unfoldable pub serialize : FileRecord → ℕ → EngineResult Bytes
serialize r hash_length = do
  guard (leb (length r.path) u16_max) invalid_input
  guard (leb (length (content_type_bytes r.content_type)) u16_max) invalid_input
  guard (leb (length r.metadata) u32_max) invalid_input
  guard (leb (length r.chunk_hashes) u32_max) invalid_input
  guard (length r.content_hash == hash_length) invalid_input
  ok (file_fields r)

-- The loop over the chunk hashes, and the offset after it.
unfoldable pub read_hashes : ℕ → Bytes → ℕ → ℕ → EngineResult (List Bytes × ℕ)
read_hashes zero input hash_length offset = ok ([], offset)
read_hashes (suc count) input hash_length offset = do
  (hash, offset) ← read_bytes input offset hash_length
  (hashes, offset) ← read_hashes count input hash_length offset
  ok (hash ∷ hashes, offset)

-- Both versions of `deserialize`. The first has no content hash, which is none of its bytes.
unfoldable pub deserialize_with : ℕ → Bytes → ℕ → EngineResult FileRecord
deserialize_with content_hash_length input hash_length = do
  (path_length, offset) ← read_u16 input 0
  (path, offset) ← read_string input offset path_length
  (content_type_length, offset) ← read_u16 input offset
  (content_type, offset) ← read_content_type input offset content_type_length
  (total_size, offset) ← read_u64 input offset
  (created_at, offset) ← read_i64 input offset
  (updated_at, offset) ← read_i64 input offset
  (content_hash, offset) ← read_bytes input offset content_hash_length
  (metadata_length, offset) ← read_u32 input offset
  (metadata, offset) ← read_bytes input offset metadata_length
  (chunk_count, offset) ← read_u32 input offset
  (chunk_hashes, offset) ← read_hashes chunk_count input hash_length offset
  guard (offset == length input) invalid_input
  ok (record {
    path = path;
    content_type = content_type;
    total_size = total_size;
    created_at = from_bits created_at;
    updated_at = from_bits updated_at;
    metadata = metadata;
    content_hash = content_hash;
    chunk_hashes = chunk_hashes;
  })

unfoldable pub deserialize : Bytes → ℕ → ℕ → EngineResult FileRecord
deserialize input hash_length version =
    if version == 0
    then deserialize_with 0 input hash_length
    else if version == 1
    then deserialize_with hash_length input hash_length
    else err (invalid_entry_version version)

-- Fields that are in range, and hashes of the right length. An empty content type is read back as
-- none.
pub record IsValid (hash_length : ℕ) (r : FileRecord) : Type 0 where
  pub path_fits : length r.path ≤ u16_max
  pub path_utf8 : is_utf8 r.path ≡ true
  pub content_type_fits : length (content_type_bytes r.content_type) ≤ u16_max
  pub content_type_utf8 : is_utf8 (content_type_bytes r.content_type) ≡ true
  pub content_type_nonempty : r.content_type ≢ some []
  pub total_size_fits : r.total_size < 2 ^ 64
  pub created_at_fits : IsI64 r.created_at
  pub updated_at_fits : IsI64 r.updated_at
  pub content_hash_fits : length r.content_hash ≡ hash_length
  pub metadata_fits : length r.metadata ≤ u32_max
  pub chunk_count_fits : length r.chunk_hashes ≤ u32_max
  pub chunk_hashes_fit : All (λ hash. length hash ≡ hash_length) r.chunk_hashes
