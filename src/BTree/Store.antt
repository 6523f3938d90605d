-- ===== src/BTree/Store.antt =====
-- aeordb-lib/src/engine/btree.rs: what the B-tree code uses of the storage engine
-- (storage_engine.rs), as an interface, with `store_btree_node` and the reading of a node.
use aeordb.Prelude.{ℕ, ◌≡◌, Option, none, some, List, [], ◌∷◌, if◌then◌else◌}
use aeordb.Bytes.{Bytes, bytes_eq}
use aeordb.Errors.{EngineResult, ok, err, ◌>>=◌, not_found}
use aeordb.Format.HashAlgorithm.{HashAlgorithm}
use aeordb.BTree.{BTreeNode}
use aeordb.BTree.Codec.{serialize, deserialize, content_hash}

-- What is found at a hash: the version of the entry and its value.
abbrev pub View : Type 0
View = Bytes → EngineResult (Option (ℕ × Bytes))

-- The keys and values of a `WriteBatch`, in the order in which they were added.
abbrev pub WriteBatch : Type 0
WriteBatch = List (Bytes × Bytes)

-- The view after entries were written one after another.
abbrev pub written : View → WriteBatch → View
written view [] = view
written view ((key, value) ∷ batch) =
    written (λ k. if bytes_eq key k then ok (some (0, value)) else view k) batch

-- The operations of the engine on its states, and that what was written is found. Entries are
-- written with version 0.
pub record NodeStore (S : Type 0) : Type 0 where
  pub get_entry : S → View
  pub store_entry : S → Bytes → Bytes → EngineResult S
  pub flush_batch : S → WriteBatch → EngineResult S
  pub get-store :
      (s s' : S) (key value hash : Bytes)
      → store_entry s key value ≡ ok s'
      → get_entry s' hash ≡ written (get_entry s) ((key, value) ∷ []) hash
  pub get-flush :
      (s s' : S) (batch : WriteBatch) (hash : Bytes)
      → flush_batch s batch ≡ ok s'
      → get_entry s' hash ≡ written (get_entry s) batch hash

-- `get_entry(hash)?.ok_or_else(...)?` and the reading of what was found.
abbrev pub decode_found : ℕ → Option (ℕ × Bytes) → EngineResult BTreeNode
decode_found hash_length none = err not_found
decode_found hash_length (some (version, value)) = deserialize value hash_length version

unfoldable pub load : View → ℕ → Bytes → EngineResult BTreeNode
load view hash_length hash = view hash >>= decode_found hash_length

unfoldable pub store_btree_node :
    {S : Type 0}
    → NodeStore S
    → (Bytes → Bytes)
    → HashAlgorithm
    → S
    → BTreeNode
    → EngineResult (S × Bytes)
store_btree_node engine blake3 algo s node = do
  serialized ← serialize node
  hash ← content_hash blake3 algo node
  s' ← engine.store_entry s hash serialized
  ok (s', hash)
