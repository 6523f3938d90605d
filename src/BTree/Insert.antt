-- ===== src/BTree/Insert.antt =====
-- aeordb-lib/src/engine/btree.rs: the insertion that stores each node at once, `btree_insert`. The
-- recursion has a bound, which stands for the depth of the tree.
use aeordb.Prelude.{ℕ, zero, suc, Option, none, some, [], ◌∷◌, if◌then◌else◌}
use aeordb.Prelude.Edits.{set_at}
use aeordb.Bytes.{Bytes}
use aeordb.Errors.{EngineResult, ok, err, ◌>>=◌, corrupt_entry, not_found}
use aeordb.Format.HashAlgorithm.{HashAlgorithm}
use aeordb.Directory.{ChildEntry}
use aeordb.BTree.{BTreeNode, leaf, internal, LeafNode, InternalNode}
use aeordb.BTree.Leaf
use aeordb.BTree.Internal
use aeordb.BTree.Codec.{serialize, deserialize}
use aeordb.BTree.Batch.{InsertResult, done, split, child_for}
use aeordb.BTree.Store.{NodeStore, load, store_btree_node}

module _ {S : Type 0} (engine : NodeStore S) (blake3 : Bytes → Bytes) (algo : HashAlgorithm) where
  unfoldable pub store_done : S → BTreeNode → EngineResult (S × InsertResult)
  store_done s node = do
    data' ← serialize node
    (s', hash) ← store_btree_node engine blake3 algo s node
    ok (s', done hash data')

  unfoldable pub store_split : S → BTreeNode → Bytes → BTreeNode → EngineResult (S × InsertResult)
  store_split s left split_key right = do
    (s', left_hash) ← store_btree_node engine blake3 algo s left
    (s'', right_hash) ← store_btree_node engine blake3 algo s' right
    ok (s'', split left_hash split_key right_hash)

  unfoldable pub store_leaf : S → LeafNode → EngineResult (S × InsertResult)
  store_leaf s l =
      let (left, split_key, right) = Leaf.split l in
      if Leaf.is_full l
      then store_split s (leaf left) split_key (leaf right)
      else store_done s (leaf l)

  unfoldable pub store_internal : S → InternalNode → EngineResult (S × InsertResult)
  store_internal s n =
      let (left, split_key, right) = Internal.split n in
      if Internal.is_full n
      then store_split s (internal left) split_key (internal right)
      else store_done s (internal n)

  -- The match on the result of the child.
  unfoldable pub store_with_child :
      S → InternalNode → ℕ → InsertResult → EngineResult (S × InsertResult)
  store_with_child s n child_idx (done new_child_hash data') =
      store_done s (internal (record n { children = set_at child_idx new_child_hash n.children }))
  store_with_child s n child_idx (split left_hash split_key right_hash) = store_internal s (
      Internal.insert_key (record n { children = set_at child_idx left_hash n.children }) split_key
        right_hash)

  unfoldable pub btree_insert_node :
      ℕ → S → ℕ → BTreeNode → ChildEntry → EngineResult (S × InsertResult)
  btree_insert_node depth s hash_length (leaf l) entry = store_leaf s (Leaf.upsert l entry).0
  btree_insert_node zero s hash_length (internal n) entry = err corrupt_entry
  btree_insert_node (suc depth) s hash_length (internal n) entry = do
    child_node ← load (engine.get_entry s) hash_length (child_for n entry.name)
    (s', result) ← btree_insert_node depth s hash_length child_node entry
    store_with_child s' n (Internal.find_child_index n entry.name) result

  unfoldable pub store_root : S → InsertResult → EngineResult (S × Bytes × Bytes)
  store_root s (done hash data') = ok (s, hash, data')
  store_root s (split left_hash split_key right_hash) = do
    let new_root =
        internal (record { keys = split_key ∷ []; children = left_hash ∷ right_hash ∷ [] })
    new_data ← serialize new_root
    (s', new_hash) ← store_btree_node engine blake3 algo s new_root
    ok (s', new_hash, new_data)

  unfoldable pub btree_insert_with_data :
      ℕ → S → ℕ → Bytes → ChildEntry → EngineResult (S × Bytes × Bytes)
  btree_insert_with_data depth s hash_length root_data entry = do
    root_node ← deserialize root_data hash_length 0
    (s', result) ← btree_insert_node depth s hash_length root_node entry
    store_root s' result

  -- The value that was found.
  unfoldable pub value_of : Option (ℕ × Bytes) → EngineResult Bytes
  value_of none = err not_found
  value_of (some (version, value)) = ok value

  unfoldable pub btree_insert : ℕ → S → Bytes → ChildEntry → ℕ → EngineResult (S × Bytes)
  btree_insert depth s root_hash entry hash_length = do
    found ← engine.get_entry s root_hash
    root_data ← value_of found
    (s', new_hash, new_data) ← btree_insert_with_data depth s hash_length root_data entry
    ok (s', new_hash)
