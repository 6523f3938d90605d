-- ===== src/Records/Examples.antt =====
-- The stored records at concrete values.
use aeordb.Prelude.{◌≡◌, refl, none, some, [], ◌∷◌, ◌++◌, replicate, arith}
use aeordb.Prelude.Int.{pos, negsuc}
use aeordb.Bytes.{Bytes}
use aeordb.Errors.{ok}
use aeordb.Strings.Utf8.{is_utf8}
use aeordb.Merge.Types.{FileRecord, SymlinkRecord}
use aeordb.Records.Deletion
use aeordb.Records.Deletion.{DeletionRecord}
use aeordb.Records.Deletion.RoundTrip.{deserialize-serialize_deletion}
use aeordb.Records.Symlink
use aeordb.Records.Symlink.RoundTrip.{deserialize-serialize_symlink}
use aeordb.Records.File
use aeordb.Records.File.RoundTrip.{deserialize-serialize_file}

-- The path `/a`.
abbrev path : Bytes
path = 47 ∷ 97 ∷ []

abbrev deletion : DeletionRecord
deletion = record { path = path; deleted_at = 1700000000000; reason = some (120 ∷ []) }

deletion-IsValid : Deletion.IsValid deletion
unfolding is_utf8
deletion-IsValid = record {
  path_fits = omega arith;
  path_utf8 = refl;
  deleted_at_fits = omega arith;
  reason_fits = omega arith;
  reason_utf8 = refl;
  reason_nonempty = λ e. ground arith;
}

deserialize-serialize_deletion_example :
    Deletion.deserialize (Deletion.serialize deletion ++ (9 ∷ [])) 0 ≡ ok deletion
deserialize-serialize_deletion_example =
    deserialize-serialize_deletion deletion (9 ∷ []) deletion-IsValid

abbrev symlink : SymlinkRecord
symlink = record {
  path = path;
  target = 47 ∷ 98 ∷ [];
  created_at = negsuc 4;
  updated_at = pos 1700000000000;
}

symlink-IsValid : Symlink.IsValid symlink
unfolding is_utf8
symlink-IsValid = record {
  path_fits = omega arith;
  path_utf8 = refl;
  target_fits = omega arith;
  target_utf8 = refl;
  created_at_fits = omega arith;
  updated_at_fits = omega arith;
}

deserialize-serialize_symlink_example :
    (bytes : Bytes) × (Symlink.serialize symlink ≡ ok bytes)
    × (Symlink.deserialize (bytes ++ []) 0 ≡ ok symlink)
deserialize-serialize_symlink_example = deserialize-serialize_symlink symlink [] symlink-IsValid

-- A file of two chunks.
abbrev file : FileRecord
file = record {
  path = path;
  content_type = none;
  total_size = 70000;
  created_at = pos 1700000000000;
  updated_at = pos 1700000000001;
  metadata = 1 ∷ [];
  content_hash = replicate 4 7;
  chunk_hashes = replicate 4 8 ∷ replicate 4 9 ∷ [];
}

file-IsValid : File.IsValid 4 file
unfolding is_utf8
file-IsValid = record {
  path_fits = omega arith;
  path_utf8 = refl;
  content_type_fits = omega arith;
  content_type_utf8 = refl;
  content_type_nonempty = λ e. ground arith;
  total_size_fits = omega arith;
  created_at_fits = omega arith;
  updated_at_fits = omega arith;
  content_hash_fits = refl;
  metadata_fits = omega arith;
  chunk_count_fits = omega arith;
  chunk_hashes_fit = (refl, (refl, tt));
}

deserialize-serialize_file_example :
    (bytes : Bytes) × (File.serialize file 4 ≡ ok bytes) × (File.deserialize bytes 4 1 ≡ ok file)
deserialize-serialize_file_example = deserialize-serialize_file 4 file (omega arith) file-IsValid
