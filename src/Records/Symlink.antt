-- ===== src/Records/Symlink.antt =====
-- aeordb-lib/src/engine/symlink_record.rs: the record of a symlink. Strings are their bytes.
pub mod RoundTrip
use aeordb.Prelude.{ℕ, ◌+◌, ◌≤◌, ◌≡◌, true, [], ◌∷◌, ◌++◌, length, leb, ◌==◌, if◌then◌else◌}
use aeordb.Prelude.Int.{ℤ, to_bits, from_bits, IsI64}
use aeordb.Bytes.{Bytes, to_le_bytes, from_le_bytes, slice}
use aeordb.Errors.{
  EngineResult, ok, err, ◌>>=◌, ◌>>◌, guard, corrupt_entry, invalid_input, invalid_entry_version,
}
use aeordb.Format.HashAlgorithm.{HashAlgorithm, compute_hash}
use aeordb.Strings.Utf8.{is_utf8}
use aeordb.Directory.{u16_max}
use aeordb.Merge.Types.{SymlinkRecord}

-- `now` is `chrono::Utc::now().timestamp_millis()`.
unfoldable pub new : Bytes → Bytes → ℤ → SymlinkRecord
new path target now = record { path = path; target = target; created_at = now; updated_at = now }

unfoldable pub symlink_fields : SymlinkRecord → Bytes
symlink_fields r =
    to_le_bytes 2 (length r.path)
    ++ (r.path
        ++ (to_le_bytes 2 (length r.target)
            ++ (r.target
                ++ (to_le_bytes 8 (to_bits r.created_at) ++ to_le_bytes 8 (to_bits r.updated_at)))))

unfoldable pub serialize : SymlinkRecord → EngineResult Bytes
serialize r = do
  guard (leb (length r.path) u16_max) invalid_input
  guard (leb (length r.target) u16_max) invalid_input
  ok (symlink_fields r)

unfoldable pub deserialize_v0 : Bytes → EngineResult SymlinkRecord
deserialize_v0 input = do
  guard (leb 4 (length input)) corrupt_entry
  let path_length = from_le_bytes (slice input 0 2)
  guard (leb (2 + path_length + 2) (length input)) corrupt_entry
  let path = slice input 2 path_length
  guard (is_utf8 path) corrupt_entry
  let target_length = from_le_bytes (slice input (2 + path_length) 2)
  guard (leb (2 + path_length + 2 + target_length + 16) (length input)) corrupt_entry
  let target = slice input (2 + path_length + 2) target_length
  guard (is_utf8 target) corrupt_entry
  let cursor = 2 + path_length + 2 + target_length
  ok (record {
    path = path;
    target = target;
    created_at = from_bits (from_le_bytes (slice input cursor 8));
    updated_at = from_bits (from_le_bytes (slice input (cursor + 8) 8));
  })

unfoldable pub deserialize : Bytes → ℕ → EngineResult SymlinkRecord
deserialize input version =
    if version == 0 then deserialize_v0 input else err (invalid_entry_version version)

-- `"symlink:"`
abbrev path_prefix : Bytes
path_prefix = 115 ∷ 121 ∷ 109 ∷ 108 ∷ 105 ∷ 110 ∷ 107 ∷ 58 ∷ []

-- `b"symlinkc:"`
abbrev content_prefix : Bytes
content_prefix = 115 ∷ 121 ∷ 109 ∷ 108 ∷ 105 ∷ 110 ∷ 107 ∷ 99 ∷ 58 ∷ []

unfoldable pub symlink_path_hash : (Bytes → Bytes) → Bytes → HashAlgorithm → EngineResult Bytes
symlink_path_hash blake3 path algo = compute_hash blake3 algo (path_prefix ++ path)

unfoldable pub symlink_content_hash : (Bytes → Bytes) → Bytes → HashAlgorithm → EngineResult Bytes
symlink_content_hash blake3 input algo = compute_hash blake3 algo (content_prefix ++ input)

-- UTF-8 strings that fit their length fields, and times that fit an `i64`.
pub record IsValid (r : SymlinkRecord) : Type 0 where
  pub path_fits : length r.path ≤ u16_max
  pub path_utf8 : is_utf8 r.path ≡ true
  pub target_fits : length r.target ≤ u16_max
  pub target_utf8 : is_utf8 r.target ≡ true
  pub created_at_fits : IsI64 r.created_at
  pub updated_at_fits : IsI64 r.updated_at
