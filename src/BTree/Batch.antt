-- ===== src/BTree/Batch.antt =====
-- aeordb-lib/src/engine/btree.rs: the insertion that collects its writes, `btree_insert_batched`. The
-- recursion has a bound, which stands for the depth of the tree.
use aeordb.Prelude.{ℕ, zero, suc, [], ◌∷◌, ◌++◌, get_or, if◌then◌else◌}
use aeordb.Prelude.Edits.{set_at}
use aeordb.Bytes.{Bytes}
use aeordb.Errors.{EngineResult, ok, err, ◌>>=◌, corrupt_entry}
use aeordb.Format.HashAlgorithm.{HashAlgorithm}
use aeordb.Directory.{ChildEntry}
use aeordb.BTree.{BTreeNode, leaf, internal, LeafNode, InternalNode}
use aeordb.BTree.Leaf
use aeordb.BTree.Internal
use aeordb.BTree.Codec.{serialize, deserialize, content_hash}
use aeordb.BTree.Store.{View, WriteBatch, NodeStore, load}

pub data InsertResult : Type 0 where
  done : Bytes → Bytes → InsertResult
  split : Bytes → Bytes → Bytes → InsertResult

-- `internal.children[child_idx]`: there is one child more than keys.
unfoldable pub child_for : InternalNode → Bytes → Bytes
child_for n name = get_or n.children (Internal.find_child_index n name) []

module _ (blake3 : Bytes → Bytes) (algo : HashAlgorithm) where
  -- A node that was not split is added to the batch.
  unfoldable pub add_done : BTreeNode → WriteBatch → EngineResult (WriteBatch × InsertResult)
  add_done node batch = do
    data' ← serialize node
    hash ← content_hash blake3 algo node
    ok (batch ++ ((hash, data') ∷ []), done hash data')

  -- The two halves of a node are added to the batch.
  unfoldable pub add_split :
      BTreeNode → Bytes → BTreeNode → WriteBatch → EngineResult (WriteBatch × InsertResult)
  add_split left split_key right batch = do
    left_hash ← content_hash blake3 algo left
    right_hash ← content_hash blake3 algo right
    left_data ← serialize left
    right_data ← serialize right
    ok (
      batch ++ ((left_hash, left_data) ∷ (right_hash, right_data) ∷ []),
      split left_hash split_key right_hash,
    )

  unfoldable pub add_leaf : LeafNode → WriteBatch → EngineResult (WriteBatch × InsertResult)
  add_leaf l batch =
      let (left, split_key, right) = Leaf.split l in
      if Leaf.is_full l
      then add_split (leaf left) split_key (leaf right) batch
      else add_done (leaf l) batch

  unfoldable pub add_internal : InternalNode → WriteBatch → EngineResult (WriteBatch × InsertResult)
  add_internal n batch =
      let (left, split_key, right) = Internal.split n in
      if Internal.is_full n
      then add_split (internal left) split_key (internal right) batch
      else add_done (internal n) batch

  -- The match on the result of the child.
  unfoldable pub with_child :
      InternalNode → ℕ → WriteBatch → InsertResult → EngineResult (WriteBatch × InsertResult)
  with_child n child_idx batch (done new_child_hash data') =
      add_done (internal (record n { children = set_at child_idx new_child_hash n.children })) batch
  with_child n child_idx batch (split left_hash split_key right_hash) =
      add_internal
        (Internal.insert_key (record n { children = set_at child_idx left_hash n.children })
          split_key right_hash)
        batch

  unfoldable pub btree_insert_node_batched :
      ℕ → View → ℕ → BTreeNode → ChildEntry → WriteBatch → EngineResult (WriteBatch × InsertResult)
  btree_insert_node_batched depth view hash_length (leaf l) entry batch =
      add_leaf (Leaf.upsert l entry).0 batch
  btree_insert_node_batched zero view hash_length (internal n) entry batch = err corrupt_entry
  btree_insert_node_batched (suc depth) view hash_length (internal n) entry batch = do
    child_node ← load view hash_length (child_for n entry.name)
    (batch, result) ← btree_insert_node_batched depth view hash_length child_node entry batch
    with_child n (Internal.find_child_index n entry.name) batch result

  -- A root that was split gets a new root above its halves.
  unfoldable pub add_root : WriteBatch → InsertResult → EngineResult (WriteBatch × Bytes × Bytes)
  add_root batch (done hash data') = ok (batch, hash, data')
  add_root batch (split left_hash split_key right_hash) = do
    let new_root =
        internal (record { keys = split_key ∷ []; children = left_hash ∷ right_hash ∷ [] })
    new_data ← serialize new_root
    new_hash ← content_hash blake3 algo new_root
    ok (batch ++ ((new_hash, new_data) ∷ []), new_hash, new_data)

  -- All that `btree_insert_batched` does before the batch is flushed.
  unfoldable pub collect_insert :
      ℕ → View → ℕ → Bytes → ChildEntry → EngineResult (WriteBatch × Bytes × Bytes)
  collect_insert depth view hash_length root_data entry = do
    root_node ← deserialize root_data hash_length 0
    (batch, result) ← btree_insert_node_batched depth view hash_length root_node entry []
    add_root batch result

  unfoldable pub btree_insert_batched :
      {S : Type 0} → NodeStore S → ℕ → S → ℕ → Bytes → ChildEntry → EngineResult (S × Bytes × Bytes)
  btree_insert_batched engine depth s hash_length root_data entry = do
    (batch, new_hash, new_data) ←
        collect_insert depth (engine.get_entry s) hash_length root_data entry
    s' ← engine.flush_batch s batch
    ok (s', new_hash, new_data)
