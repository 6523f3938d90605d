-- ===== src/BTree/Query.antt =====
-- aeordb-lib/src/engine/btree.rs: `btree_lookup`, `btree_list` and `btree_list_from_node`. The view is
-- that of `get_entry` or of `get_entry_including_deleted`, as `include_deleted` says. The recursion
-- has a bound, which stands for the depth of the tree.
use aeordb.Prelude.{ℕ, zero, suc, Option, List, [], ◌∷◌, ◌++◌}
use aeordb.Bytes.{Bytes}
use aeordb.Errors.{EngineResult, ok, err, ◌>>=◌, corrupt_entry}
use aeordb.Directory.{ChildEntry}
use aeordb.BTree.{BTreeNode, leaf, internal}
use aeordb.BTree.Leaf
use aeordb.BTree.Batch.{child_for}
use aeordb.BTree.Codec.{deserialize}
use aeordb.BTree.Store.{View, load}

module _ (view : View) (hash_length : ℕ) where
  -- What follows the reading of the node; the argument looks a child up.
  unfoldable pub lookup_node :
      (Bytes → EngineResult (Option ChildEntry))
      → Bytes
      → BTreeNode
      → EngineResult (Option ChildEntry)
  lookup_node below name (leaf l) = ok (Leaf.find l name)
  lookup_node below name (internal n) = below (child_for n name)

  unfoldable pub btree_lookup : ℕ → Bytes → Bytes → EngineResult (Option ChildEntry)
  btree_lookup zero root_hash name = err corrupt_entry
  btree_lookup (suc depth) root_hash name =
      load view hash_length root_hash >>= lookup_node (λ hash. btree_lookup depth hash name) name

  -- The loop over the children; the argument lists a child.
  unfoldable pub list_children :
      (Bytes → EngineResult (List ChildEntry)) → List Bytes → EngineResult (List ChildEntry)
  list_children below [] = ok []
  list_children below (child_hash ∷ children) = do
    child_entries ← below child_hash
    rest ← list_children below children
    ok (child_entries ++ rest)

  unfoldable pub list_node :
      (Bytes → EngineResult (List ChildEntry)) → BTreeNode → EngineResult (List ChildEntry)
  list_node below (leaf l) = ok l.entries
  list_node below (internal n) = list_children below n.children

  unfoldable pub btree_list : ℕ → Bytes → EngineResult (List ChildEntry)
  btree_list zero root_hash = err corrupt_entry
  btree_list (suc depth) root_hash =
      load view hash_length root_hash >>= list_node (btree_list depth)

  unfoldable pub btree_list_from_node : ℕ → Bytes → EngineResult (List ChildEntry)
  btree_list_from_node depth root_data =
      deserialize root_data hash_length 0 >>= list_node (btree_list depth)
