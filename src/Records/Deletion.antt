-- ===== src/Records/Deletion.antt =====
-- aeordb-lib/src/engine/deletion_record.rs: the record of a deletion. `deleted_at`, an `i64`, is kept
-- as its bit pattern, and strings as their bytes. The readers are those of binary_utils.rs.
pub mod RoundTrip
use aeordb.Prelude.{
  ℕ, ◌≤◌, ◌<◌, ◌^◌, ◌≡◌, ◌≢◌, true, Option, none, some, [], ◌++◌, length, ◌==◌, if◌then◌else◌,
}
use aeordb.Bytes.{Bytes, to_le_bytes}
use aeordb.Bytes.Readers.{read_u16, read_i64, read_string}
use aeordb.Errors.{EngineResult, ok, err, ◌>>=◌, invalid_entry_version}
use aeordb.Strings.Utf8.{is_utf8}
use aeordb.Directory.{content_type_bytes, read_content_type}

pub record DeletionRecord : Type 0 where
  pub path : Bytes
  pub deleted_at : ℕ
  pub reason : Option Bytes

-- `now` is `chrono::Utc::now().timestamp_millis()`.
unfoldable pub new : Bytes → Option Bytes → ℕ → DeletionRecord
new path reason now = record { path = path; deleted_at = now; reason = reason }

-- The lengths are cast to `u16`.
unfoldable pub serialize : DeletionRecord → Bytes
serialize r =
    let reason_bytes = content_type_bytes r.reason in
    to_le_bytes 2 (length r.path)
    ++ (r.path
        ++ (to_le_bytes 8 r.deleted_at ++ (to_le_bytes 2 (length reason_bytes) ++ reason_bytes)))

unfoldable pub deserialize_v0 : Bytes → EngineResult DeletionRecord
deserialize_v0 input = do
  (path_length, offset) ← read_u16 input 0
  (path, offset) ← read_string input offset path_length
  (deleted_at, offset) ← read_i64 input offset
  (reason_length, offset) ← read_u16 input offset
  (reason, offset) ← read_content_type input offset reason_length
  ok (record { path = path; deleted_at = deleted_at; reason = reason })

unfoldable pub deserialize : Bytes → ℕ → EngineResult DeletionRecord
deserialize input version =
    if version == 0 then deserialize_v0 input else err (invalid_entry_version version)

-- UTF-8 strings whose lengths fit their fields. An empty reason is read back as none.
pub record IsValid (r : DeletionRecord) : Type 0 where
  pub path_fits : length r.path < 2 ^ 16
  pub path_utf8 : is_utf8 r.path ≡ true
  pub deleted_at_fits : r.deleted_at < 2 ^ 64
  pub reason_fits : length (content_type_bytes r.reason) < 2 ^ 16
  pub reason_utf8 : is_utf8 (content_type_bytes r.reason) ≡ true
  pub reason_nonempty : r.reason ≢ some []
