-- ===== src/BTree/Examples.antt =====
-- The B-tree operations at concrete values.
use aeordb.Prelude.{
  ℕ, ◌≡◌, refl, sym, ap, none, some, [], ◌∷◌, ◌++◌, length, replicate, arith, if◌then◌else◌,
}
use aeordb.Bytes.Readers
use aeordb.Bytes.{Bytes, bytes_eq, to_le_bytes, fitted_hash, length-fitted_hash}
use aeordb.Errors.{ok, ok_injective}
use aeordb.Format.HashAlgorithm.{blake3_256, compute_hash}
use aeordb.Strings.{bytes_lt}
use aeordb.Strings.Utf8.{is_utf8}
use aeordb.Directory
use aeordb.Directory.{ChildEntry, entry_fields}
use aeordb.BTree.{BTreeNode, leaf, internal, binary_search}
use aeordb.BTree.Leaf
use aeordb.BTree.Codec
use aeordb.BTree.Codec.{IsKey, serialize, deserialize, deserialize_v0, read_leaf, hash_prefix}
use aeordb.BTree.Codec.RoundTrip.{deserialize-serialize_node}
use aeordb.BTree.Batch.{
  collect_insert, btree_insert_node_batched, add_leaf, add_done, add_root, btree_insert_batched,
}
use aeordb.BTree.Insert.{btree_insert_with_data}
use aeordb.BTree.Query.{btree_lookup, btree_list}
use aeordb.BTree.Store.{View, WriteBatch, NodeStore, written, load}
use aeordb.BTree.Spec.{put, lookup, IsSorted}
use aeordb.BTree.Proofs.Insert.{Rooted}
use aeordb.BTree.Proofs.Refines.{
  btree_list-btree_lookup, collect_insert_total, btree_insert_batched-put,
}
use aeordb.BTree.Proofs.Tree.{hash_size, Tree}
use aeordb.BTree.Proofs.Tree.Node.{leaf_node}
use aeordb.BTree.Proofs.Unbatched.{store_all, btree_insert_with_data-collect_insert}
use aeordb.BTree.Proofs.Views.{Agrees}

-- A hash of the right length.
abbrev cut : Bytes → Bytes
cut = fitted_hash 32

length-cut : (input : Bytes) → length (cut input) ≡ hash_size
length-cut input = length-fitted_hash 32 input

abbrev named : ℕ → ChildEntry
named letter = record {
  entry_type = 2;
  hash = replicate 32 9;
  total_size = 7;
  created_at = 1700000000000;
  updated_at = 1700000000001;
  name = letter ∷ [];
  content_type = none;
  virtual_time = 5;
  node_id = 1;
}

a-IsValid : Directory.IsValid 32 (named 97)
unfolding is_utf8
a-IsValid = record {
  hash_fits = refl;
  total_size_fits = omega arith;
  created_at_fits = omega arith;
  updated_at_fits = omega arith;
  name_fits = omega arith;
  name_utf8 = refl;
  content_type_fits = omega arith;
  content_type_utf8 = refl;
  content_type_nonempty = λ e. ground arith;
  virtual_time_fits = omega arith;
  node_id_fits = omega arith;
}

b-IsValid : Directory.IsValid 32 (named 98)
unfolding is_utf8
b-IsValid = record {
  hash_fits = refl;
  total_size_fits = omega arith;
  created_at_fits = omega arith;
  updated_at_fits = omega arith;
  name_fits = omega arith;
  name_utf8 = refl;
  content_type_fits = omega arith;
  content_type_utf8 = refl;
  content_type_nonempty = λ e. ground arith;
  virtual_time_fits = omega arith;
  node_id_fits = omega arith;
}

-- An engine whose states are what is found in them.
abbrev engine : NodeStore View
engine = record {
  get_entry = λ s. s;
  store_entry = λ s key value. ok (written s ((key, value) ∷ []));
  flush_batch = λ s batch. ok (written s batch);
  get-store = λ s s' key value hash e. ap (λ view. view hash) (sym (ok_injective _ s' e));
  get-flush = λ s s' batch hash e. ap (λ view. view hash) (sym (ok_injective _ s' e));
}

abbrev nothing : View
nothing hash = ok none

-- The bytes of a leaf with the entry `b`, and those of one with `a` and `b`.
abbrev one_entry : Bytes
unfolding entry_fields
one_entry = 0 ∷ (to_le_bytes 2 1 ++ entry_fields (named 98))

abbrev two_entries : Bytes
unfolding entry_fields
two_entries = 0 ∷ (to_le_bytes 2 2 ++ (entry_fields (named 97) ++ entry_fields (named 98)))

abbrev new_hash : Bytes
new_hash = cut (hash_prefix ++ two_entries)

abbrev batch : WriteBatch
batch = (new_hash, two_entries) ∷ []

decode_one : deserialize one_entry 32 0 ≡ ok (leaf (record { entries = named 98 ∷ [] }))
unfolding deserialize deserialize_v0 read_leaf Directory.deserialize_child_entries
    Directory.child_entries_from Directory.deserialize Directory.deserialize_v0
    Directory.read_content_type Directory.read_u64_or_zero Readers.read_bytes Readers.read_u64
    Readers.read_i64 Readers.read_u16 Readers.read_string is_utf8 one_entry
decode_one = refl

root-Rooted : Rooted 0 nothing one_entry (named 98 ∷ [])
unfolding Rooted
root-Rooted = (
  leaf (record { entries = named 98 ∷ [] }),
  decode_one,
  leaf_node (named 98 ∷ []) (tt, tt, tt, tt) (omega arith) (b-IsValid, tt),
)

collect_insert_total_example :
    (batch : WriteBatch) × (new_hash : Bytes) × (new_data : Bytes) × (collect_insert cut blake3_256
        3 nothing 32 one_entry
        (named 97)
      ≡ ok (batch, new_hash, new_data))
collect_insert_total_example =
    collect_insert_total cut length-cut 0 3 nothing one_entry (named 98 ∷ []) (named 97)
      (omega arith) a-IsValid root-Rooted

collected :
    collect_insert cut blake3_256 0 nothing 32 one_entry (named 97)
    ≡ ok (batch, new_hash, two_entries)
unfolding collect_insert btree_insert_node_batched add_leaf add_done add_root Leaf.upsert
    Leaf.is_full binary_search bytes_eq bytes_lt Codec.content_hash compute_hash serialize
    Directory.serialize_child_entries Directory.serialize entry_fields fitted_hash
collected = rw decode_one

batch-Agrees : Agrees nothing batch
batch-Agrees = ((λ x e. ground arith), tt)

btree_insert_batched-put_example :
    (btree_insert_batched cut blake3_256 engine 0 nothing 32 one_entry (named 97)
      ≡ ok (written nothing batch, new_hash, two_entries))
    × (btree_list (written nothing batch) 32 2 new_hash ≡ ok (put (named 97) (named 98 ∷ [])))
    × Rooted 1 (written nothing batch) two_entries (put (named 97) (named 98 ∷ []))
    × ((name : Bytes)
        → btree_lookup (written nothing batch) 32 2 new_hash name
          ≡ ok (if bytes_eq (97 ∷ []) name then some (named 97) else lookup (named 98 ∷ []) name))
btree_insert_batched-put_example =
    btree_insert_batched-put cut length-cut engine nothing (written nothing batch) 0 one_entry
      (named 98 ∷ []) (named 97) batch new_hash two_entries a-IsValid root-Rooted collected
      batch-Agrees refl

stored : store_all engine cut blake3_256 nothing batch ≡ ok (written nothing batch)
unfolding store_all
stored = refl

btree_insert_with_data-collect_insert_example :
    btree_insert_with_data engine cut blake3_256 0 nothing 32 one_entry (named 97)
    ≡ ok (written nothing batch, new_hash, two_entries)
btree_insert_with_data-collect_insert_example =
    btree_insert_with_data-collect_insert engine cut blake3_256 0 nothing (written nothing batch) 32
      one_entry (named 97) batch new_hash two_entries collected stored

abbrev root_hash : Bytes
root_hash = 1 ∷ 2 ∷ []

abbrev one_leaf : View
one_leaf = written nothing ((root_hash, one_entry) ∷ [])

one_leaf-Tree : Tree 1 one_leaf none none root_hash (named 98 ∷ [])
unfolding Tree load bytes_eq
one_leaf-Tree = (
  leaf (record { entries = named 98 ∷ [] }),
  decode_one,
  leaf_node (named 98 ∷ []) (tt, tt, tt, tt) (omega arith) (b-IsValid, tt),
)

btree_list-btree_lookup_example :
    (btree_list one_leaf 32 1 root_hash ≡ ok (named 98 ∷ []))
    × IsSorted none none (named 98 ∷ [])
    × ((name : Bytes)
        → btree_lookup one_leaf 32 1 root_hash name ≡ ok (lookup (named 98 ∷ []) name))
btree_list-btree_lookup_example =
    btree_list-btree_lookup 1 one_leaf root_hash (named 98 ∷ []) one_leaf-Tree

abbrev two_children : BTreeNode
two_children =
    internal (record { keys = (98 ∷ []) ∷ []; children = (1 ∷ 2 ∷ []) ∷ (3 ∷ 4 ∷ []) ∷ [] })

two_children-IsValid : Codec.IsValid 2 two_children
unfolding is_utf8
two_children-IsValid =
    (omega arith, (record { fits = omega arith; utf8 = refl }, tt), refl, (refl, (refl, tt)))

deserialize-serialize_node_example :
    (bytes : Bytes) × (serialize two_children ≡ ok bytes)
    × (deserialize bytes 2 0 ≡ ok two_children)
deserialize-serialize_node_example =
    deserialize-serialize_node 2 two_children (omega arith) two_children-IsValid
