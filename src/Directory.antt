-- ===== src/Directory.antt =====
-- aeordb-lib/src/engine/directory_entry.rs: the entries of a directory. `created_at` and
-- `updated_at`, `i64`, are kept as their bit patterns, and strings as their bytes. The hash length
-- that `serialize` takes only sets a capacity, and is left out.
pub mod RoundTrip
pub mod Loop
mod Examples
use aeordb.Prelude.{
  ℕ, zero, suc, ◌+◌, ◌*◌, ◌≤◌, ◌<◌, ◌^◌, ◌≡◌, ◌≢◌, true, Option, none, some, List, [], ◌∷◌, ◌++◌,
  length, drop, ltb, leb, ◌==◌, if◌then◌else◌,
}
use aeordb.Bytes.{Bytes, to_le_bytes, byte_at}
use aeordb.Bytes.Readers.{read_u16, read_u64, read_i64, read_bytes, read_string}
use aeordb.Errors.{
  EngineResult, ok, err, ◌>>=◌, ◌>>◌, guard, unexpected_eof, invalid_input, invalid_entry_version,
}
use aeordb.Strings.Utf8.{is_utf8}

pub record ChildEntry : Type 0 where
  pub entry_type : ℕ
  pub hash : Bytes
  pub total_size : ℕ
  pub created_at : ℕ
  pub updated_at : ℕ
  pub name : Bytes
  pub content_type : Option Bytes
  pub virtual_time : ℕ
  pub node_id : ℕ

abbrev pub u16_max : ℕ
u16_max = 65535

-- `unwrap_or("")`
abbrev pub content_type_bytes : Option Bytes → Bytes
content_type_bytes none = []
content_type_bytes (some bytes) = bytes

-- The bytes of an entry whose strings fit.
unfoldable pub entry_fields : ChildEntry → Bytes
entry_fields e =
    let content_type = content_type_bytes e.content_type in
    (e.entry_type ∷ [])
    ++ (e.hash
        ++ (to_le_bytes 8 e.total_size
            ++ (to_le_bytes 8 e.created_at
                ++ (to_le_bytes 8 e.updated_at
                    ++ (to_le_bytes 2 (length e.name)
                        ++ (e.name
                            ++ (to_le_bytes 2 (length content_type)
                                ++ (content_type
                                    ++ (to_le_bytes 8 e.virtual_time
                                        ++ to_le_bytes 8 e.node_id)))))))))

unfoldable pub serialize : ChildEntry → EngineResult Bytes
serialize e = do
  guard (leb (length e.name) u16_max) invalid_input
  guard (leb (length (content_type_bytes e.content_type)) u16_max) invalid_input
  ok (entry_fields e)

unfoldable pub read_content_type : Bytes → ℕ → ℕ → EngineResult (Option Bytes × ℕ)
read_content_type input offset zero = ok (none, offset)
read_content_type input offset (suc n) = do
  (content_type, offset) ← read_string input offset (suc n)
  ok (some content_type, offset)

-- A field that old entries do not have.
unfoldable pub read_u64_or_zero : Bytes → ℕ → EngineResult (ℕ × ℕ)
read_u64_or_zero input offset =
    if leb (offset + 8) (length input) then read_u64 input offset else ok (0, offset)

-- The entry and the number of bytes that it takes.
unfoldable pub deserialize_v0 : Bytes → ℕ → EngineResult (ChildEntry × ℕ)
deserialize_v0 input hash_length = do
  guard (ltb 0 (length input)) unexpected_eof
  (hash, offset) ← read_bytes input 1 hash_length
  (total_size, offset) ← read_u64 input offset
  (created_at, offset) ← read_i64 input offset
  (updated_at, offset) ← read_i64 input offset
  (name_length, offset) ← read_u16 input offset
  (name, offset) ← read_string input offset name_length
  (content_type_length, offset) ← read_u16 input offset
  (content_type, offset) ← read_content_type input offset content_type_length
  (virtual_time, offset) ← read_u64_or_zero input offset
  (node_id, offset) ← read_u64_or_zero input offset
  ok (
    record {
      entry_type = byte_at input 0;
      hash = hash;
      total_size = total_size;
      created_at = created_at;
      updated_at = updated_at;
      name = name;
      content_type = content_type;
      virtual_time = virtual_time;
      node_id = node_id;
    },
    offset,
  )

unfoldable pub deserialize : Bytes → ℕ → ℕ → EngineResult (ChildEntry × ℕ)
deserialize input hash_length version =
    if version == 0 then deserialize_v0 input hash_length else err (invalid_entry_version version)

unfoldable pub serialize_child_entries : List ChildEntry → EngineResult Bytes
serialize_child_entries [] = ok []
serialize_child_entries (entry ∷ entries) = do
  bytes ← serialize entry
  rest ← serialize_child_entries entries
  ok (bytes ++ rest)

-- The loop, on what the offset has left of the input, with fuel.
unfoldable pub child_entries_from : ℕ → Bytes → ℕ → EngineResult (List ChildEntry)
child_entries_from zero input hash_length = ok []
child_entries_from (suc fuel) input hash_length =
    if ltb 0 (length input)
    then (do
      (entry, bytes_consumed) ← deserialize input hash_length 0
      entries ← child_entries_from fuel (drop bytes_consumed input) hash_length
      ok (entry ∷ entries))
    else ok []

unfoldable pub deserialize_child_entries : Bytes → ℕ → ℕ → EngineResult (List ChildEntry)
deserialize_child_entries input hash_length version =
    if version == 0
    then child_entries_from (length input) input hash_length
    else err (invalid_entry_version version)

-- The ranges of the field types, a hash of the right length, and strings that are UTF-8 and fit
-- their length fields. An empty content type is read back as none.
pub record IsValid (hash_length : ℕ) (e : ChildEntry) : Type 0 where
  pub hash_fits : length e.hash ≡ hash_length
  pub total_size_fits : e.total_size < 2 ^ 64
  pub created_at_fits : e.created_at < 2 ^ 64
  pub updated_at_fits : e.updated_at < 2 ^ 64
  pub name_fits : length e.name ≤ u16_max
  pub name_utf8 : is_utf8 e.name ≡ true
  pub content_type_fits : length (content_type_bytes e.content_type) ≤ u16_max
  pub content_type_utf8 : is_utf8 (content_type_bytes e.content_type) ≡ true
  pub content_type_nonempty : e.content_type ≢ some []
  pub virtual_time_fits : e.virtual_time < 2 ^ 64
  pub node_id_fits : e.node_id < 2 ^ 64
