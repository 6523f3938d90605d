-- ===== src/Directory/Examples.antt =====
-- The entries of a directory at concrete values.
use aeordb.Prelude.{◌≡◌, refl, none, some, List, [], ◌∷◌, replicate, All, arith}
use aeordb.Bytes.{Bytes}
use aeordb.Errors.{ok}
use aeordb.Strings.Utf8.{is_utf8}
use aeordb.Directory.{ChildEntry, IsValid, serialize_child_entries, deserialize_child_entries}
use aeordb.Directory.Loop.{deserialize-serialize_child_entries}

-- A file `é` of plain text, and a directory `b`.
abbrev file : ChildEntry
file = record {
  entry_type = 2;
  hash = replicate 4 9;
  total_size = 70000;
  created_at = 1700000000000;
  updated_at = 1700000000001;
  name = 0xC3 ∷ 0xA9 ∷ [];
  content_type = some (116 ∷ 101 ∷ 120 ∷ 116 ∷ []);
  virtual_time = 5;
  node_id = 1;
}

abbrev directory : ChildEntry
directory = record file { entry_type = 3; name = 98 ∷ []; content_type = none }

abbrev listing : List ChildEntry
listing = directory ∷ file ∷ []

directory-IsValid : IsValid 4 directory
unfolding is_utf8
directory-IsValid = record {
  hash_fits = refl;
  total_size_fits = omega arith;
  created_at_fits = omega arith;
  updated_at_fits = omega arith;
  name_fits = omega arith;
  name_utf8 = refl;
  content_type_fits = omega arith;
  content_type_utf8 = refl;
  content_type_nonempty = λ e. ground arith;
  virtual_time_fits = omega arith;
  node_id_fits = omega arith;
}

file-IsValid : IsValid 4 file
unfolding is_utf8
file-IsValid = record {
  hash_fits = refl;
  total_size_fits = omega arith;
  created_at_fits = omega arith;
  updated_at_fits = omega arith;
  name_fits = omega arith;
  name_utf8 = refl;
  content_type_fits = omega arith;
  content_type_utf8 = refl;
  content_type_nonempty = λ e. ground arith;
  virtual_time_fits = omega arith;
  node_id_fits = omega arith;
}

listing-IsValid : All (IsValid 4) listing
listing-IsValid = (directory-IsValid, (file-IsValid, tt))

deserialize-serialize_child_entries_example :
    (bytes : Bytes) × (serialize_child_entries listing ≡ ok bytes)
    × (deserialize_child_entries bytes 4 0 ≡ ok listing)
deserialize-serialize_child_entries_example =
    deserialize-serialize_child_entries 4 listing listing-IsValid
