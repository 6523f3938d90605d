-- ===== src/BTree/Codec.antt =====
-- aeordb-lib/src/engine/btree.rs: `serialize`, `deserialize` and `content_hash` of `BTreeNode`, and
-- `is_btree_format`.
pub mod RoundTrip
use aeordb.Prelude.{
  ℕ, zero, suc, ◌+◌, ◌*◌, ◌≤◌, ◌<◌, ◌^◌, ◌≡◌, Bool, true, false, ◌||◌, List, [], ◌∷◌, ◌++◌, length,
  drop, All, ltb, leb, ◌==◌, if◌then◌else◌,
}
use aeordb.Bytes.{Bytes, to_le_bytes, from_le_bytes, byte_at, slice}
use aeordb.Errors.{
  EngineResult, ok, err, ◌>>=◌, ◌>>◌, guard, corrupt_entry, invalid_input, invalid_entry_version,
}
use aeordb.Format.HashAlgorithm.{HashAlgorithm, compute_hash}
use aeordb.Strings.Utf8.{is_utf8}
use aeordb.Directory
use aeordb.Directory.{ChildEntry, u16_max, serialize_child_entries, deserialize_child_entries}
use aeordb.BTree.{
  BTreeNode, leaf, internal, LeafNode, InternalNode, btree_leaf_marker, btree_internal_marker,
}

unfoldable pub serialize_keys : List Bytes → EngineResult Bytes
serialize_keys [] = ok []
serialize_keys (key ∷ keys) = do
  guard (leb (length key) u16_max) invalid_input
  rest ← serialize_keys keys
  ok (to_le_bytes 2 (length key) ++ (key ++ rest))

unfoldable pub all_children : List Bytes → Bytes
all_children [] = []
all_children (child ∷ children) = child ++ all_children children

-- The counts are cast to `u16`.
unfoldable pub serialize : BTreeNode → EngineResult Bytes
serialize (leaf l) = do
  child_data ← serialize_child_entries l.entries
  ok (btree_leaf_marker ∷ (to_le_bytes 2 (length l.entries) ++ child_data))
serialize (internal n) = do
  keys ← serialize_keys n.keys
  ok (btree_internal_marker ∷ (to_le_bytes 2 (length n.keys) ++ (keys ++ all_children n.children)))

-- The loop over the keys, and the offset after it.
unfoldable pub read_keys : ℕ → Bytes → ℕ → EngineResult (List Bytes × ℕ)
read_keys zero input offset = ok ([], offset)
read_keys (suc count) input offset = do
  guard (leb (offset + 2) (length input)) corrupt_entry
  let key_len = from_le_bytes (slice input offset 2)
  guard (leb (offset + 2 + key_len) (length input)) corrupt_entry
  let key = slice input (offset + 2) key_len
  guard (is_utf8 key) corrupt_entry
  (keys, end) ← read_keys count input (offset + 2 + key_len)
  ok (key ∷ keys, end)

-- The loop over the children.
unfoldable pub read_children : ℕ → Bytes → ℕ → ℕ → EngineResult (List Bytes)
read_children zero input hash_length offset = ok []
read_children (suc count) input hash_length offset = do
  guard (leb (offset + hash_length) (length input)) corrupt_entry
  children ← read_children count input hash_length (offset + hash_length)
  ok (slice input offset hash_length ∷ children)

unfoldable pub read_leaf : Bytes → ℕ → EngineResult BTreeNode
read_leaf input hash_length = do
  guard (leb 3 (length input)) corrupt_entry
  let entry_count = from_le_bytes (slice input 1 2)
  entries ←
      if entry_count == 0 then ok [] else deserialize_child_entries (drop 3 input) hash_length 0
  ok (leaf (record { entries = entries }))

unfoldable pub read_internal : Bytes → ℕ → EngineResult BTreeNode
read_internal input hash_length = do
  guard (leb 3 (length input)) corrupt_entry
  let key_count = from_le_bytes (slice input 1 2)
  (keys, offset) ← read_keys key_count input 3
  children ← read_children (key_count + 1) input hash_length offset
  ok (internal (record { keys = keys; children = children }))

unfoldable pub deserialize_v0 : Bytes → ℕ → EngineResult BTreeNode
deserialize_v0 input hash_length =
    if length input == 0
    then err corrupt_entry
    else if byte_at input 0 == btree_leaf_marker
    then read_leaf input hash_length
    else if byte_at input 0 == btree_internal_marker
    then read_internal input hash_length
    else err corrupt_entry

unfoldable pub deserialize : Bytes → ℕ → ℕ → EngineResult BTreeNode
deserialize input hash_length version =
    if version == 0 then deserialize_v0 input hash_length else err (invalid_entry_version version)

-- `b"btree:"`
abbrev pub hash_prefix : Bytes
hash_prefix = 98 ∷ 116 ∷ 114 ∷ 101 ∷ 101 ∷ 58 ∷ []

unfoldable pub content_hash : (Bytes → Bytes) → HashAlgorithm → BTreeNode → EngineResult Bytes
content_hash blake3 algo node = do
  serialized ← serialize node
  compute_hash blake3 algo (hash_prefix ++ serialized)

unfoldable pub is_btree_format : Bytes → Bool
is_btree_format input =
    if length input == 0
    then false
    else (byte_at input 0 == btree_leaf_marker) || (byte_at input 0 == btree_internal_marker)

-- A key that is UTF-8 and fits its length field.
pub record IsKey (key : Bytes) : Type 0 where
  pub fits : length key ≤ u16_max
  pub utf8 : is_utf8 key ≡ true

-- A node that fits its count field, with entries or keys and hashes that are in range.
abbrev pub IsValid : ℕ → BTreeNode → Type 0
IsValid hash_length (leaf l) =
    (length l.entries < 2 ^ 16) × All (Directory.IsValid hash_length) l.entries
IsValid hash_length (internal n) =
    (length n.keys < 2 ^ 16)
    × All IsKey n.keys
    × (length n.children ≡ length n.keys + 1)
    × All (λ child. length child ≡ hash_length) n.children
