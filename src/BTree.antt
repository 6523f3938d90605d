-- ===== src/BTree.antt =====
-- aeordb-lib/src/engine/btree.rs: the nodes of a B-tree directory and the changes to one node.
-- Strings are their bytes. A binary search is given by its result on sorted names. The hash length
-- that `serialize` takes only sets a capacity, and is left out.
pub mod Leaf
pub mod Internal
pub mod Codec
pub mod Store
pub mod Insert
pub mod Batch
pub mod Query
pub mod Spec
pub mod Proofs
mod Examples
use aeordb.Prelude.{
  ℕ, zero, suc, ◌+◌, ◌/◌, Bool, true, false, ◌||◌, Option, none, some, List, [], ◌∷◌, map, length,
  take, drop, get_or, get_elem?, leb, ltb, ◌==◌, if◌then◌else◌,
}
use aeordb.Prelude.Edits.{set_at, insert_at, remove_at}
use aeordb.Bytes.{Bytes, bytes_eq}
use aeordb.Strings.{bytes_lt}
use aeordb.Directory.{ChildEntry}

abbrev pub btree_max_leaf_entries : ℕ
btree_max_leaf_entries = 40

abbrev pub btree_min_leaf_entries : ℕ
btree_min_leaf_entries = 20

abbrev pub btree_max_internal_keys : ℕ
btree_max_internal_keys = 77

abbrev pub btree_min_internal_keys : ℕ
btree_min_internal_keys = 38

abbrev pub btree_leaf_marker : ℕ
btree_leaf_marker = 0x00

abbrev pub btree_internal_marker : ℕ
btree_internal_marker = 0x01

pub record LeafNode : Type 0 where
  pub entries : List ChildEntry

-- The children are hashes of nodes, one more than the keys.
pub record InternalNode : Type 0 where
  pub keys : List Bytes
  pub children : List Bytes

pub data BTreeNode : Type 0 where
  leaf : LeafNode → BTreeNode
  internal : InternalNode → BTreeNode

-- `Ok(idx)` and `Err(idx)` of a binary search.
pub data Search : Type 0 where
  found missing : ℕ → Search

abbrev pub next_place : Search → Search
next_place (found i) = found (suc i)
next_place (missing i) = missing (suc i)

-- `binary_search_by(|n| n.cmp(name))` in sorted names: the place of the name, or of the first name
-- behind it.
unfoldable pub binary_search : List Bytes → Bytes → Search
binary_search [] name = missing 0
binary_search (n ∷ names) name =
    let rest = binary_search names name in
    if bytes_eq n name then found 0 else if bytes_lt name n then missing 0 else next_place rest

abbrev pub names : List ChildEntry → List Bytes
names [] = []
names (e ∷ es) = e.name ∷ names es

unfoldable pub is_leaf : BTreeNode → Bool
is_leaf (leaf l) = true
is_leaf (internal n) = false
