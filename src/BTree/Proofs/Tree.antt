-- ===== src/BTree/Proofs/Tree.antt =====
-- About the trees that aeordb-lib/src/engine/btree.rs keeps in the store: which entries a hash stands
-- for.
use aeordb.Prelude.{
  ℕ, zero, suc, ◌≤◌, ◌≡◌, refl, Option, none, some, List, ◌++◌, length, All, arith,
}
use aeordb.Bytes.{Bytes}
use aeordb.Errors.{EngineResult, ok, err, ◌>>=◌}
use aeordb.Format.HashAlgorithm.{blake3_256, compute_hash}
use aeordb.Directory
use aeordb.Directory.{ChildEntry}
use aeordb.BTree.{BTreeNode, leaf, internal, btree_max_leaf_entries, btree_max_internal_keys}
use aeordb.BTree.Codec
use aeordb.BTree.Codec.{IsKey, serialize, deserialize, content_hash, hash_prefix}
use aeordb.BTree.Codec.RoundTrip.{deserialize-serialize_node}
use aeordb.BTree.Spec.{IsSorted}
use aeordb.BTree.Store.{View, load, decode_found}
use aeordb.BTree.Proofs.Chain.{Holds, Chain, Grows, Sorts, Chain-map, Chain-IsSorted, length-Chain}
use aeordb.BTree.Proofs.Views.{Extends}

-- BLAKE3, which is the only algorithm that is implemented, has hashes of this length.
abbrev pub hash_size : ℕ
hash_size = 32

abbrev pub IsHash : Bytes → Type 0
IsHash hash = length hash ≡ hash_size

-- The entries below a node: sorted, in bounds and in range, with at most as many entries or keys as
-- a node is allowed.
pub data Node (P : Holds) (lo hi : Option Bytes) : BTreeNode → List ChildEntry → Type 0 where
  leaf_node :
      (es : List ChildEntry)
      → IsSorted lo hi es
      → length es ≤ btree_max_leaf_entries
      → All (Directory.IsValid hash_size) es
      → Node P lo hi (leaf (record { entries = es })) es
  internal_node :
      (ks hs : List Bytes) (es : List ChildEntry)
      → length ks ≤ btree_max_internal_keys
      → All IsKey ks
      → All IsHash hs
      → Chain P lo hi ks hs es
      → Node P lo hi (internal (record { keys = ks; children = hs })) es

-- The hash of the root of a tree of at most so many levels, all of whose nodes are found.
unfoldable pub Tree : ℕ → View → Holds
Tree zero view lo hi h es = ⊥
Tree (suc depth) view lo hi h es =
    (node : BTreeNode) × (load view hash_size h ≡ ok node) × Node (Tree depth view) lo hi node es

pub Node-map :
    (P Q : Holds) (lo hi : Option Bytes) (node : BTreeNode) (es : List ChildEntry)
    → Grows P Q
    → Node P lo hi node es
    → Node Q lo hi node es
Node-map P Q lo hi _ _ f (leaf_node es s n v) = leaf_node es s n v
Node-map P Q lo hi _ _ f (internal_node ks hs es n v w c) =
    internal_node ks hs es n v w (Chain-map P Q lo hi ks hs es f c)

pub Node-IsSorted :
    (P : Holds) (lo hi : Option Bytes) (node : BTreeNode) (es : List ChildEntry)
    → Sorts P
    → Node P lo hi node es
    → IsSorted lo hi es
Node-IsSorted P lo hi _ _ f (leaf_node es s n v) = s
Node-IsSorted P lo hi _ _ f (internal_node ks hs es n v w c) = Chain-IsSorted P lo hi ks hs es f c

pub Tree-IsSorted : (depth : ℕ) (view : View) → Sorts (Tree depth view)
unfolding Tree
Tree-IsSorted zero view lo hi h es t = elim t [ ]
Tree-IsSorted (suc depth) view lo hi h es (node, e, n) =
    Node-IsSorted (Tree depth view) lo hi node es (Tree-IsSorted depth view) n

decode_found-inv :
    (r : EngineResult (Option (ℕ × Bytes))) (node : BTreeNode)
    → (r >>= decode_found hash_size) ≡ ok node
    → (x : ℕ × Bytes) × (r ≡ ok (some x)) × (decode_found hash_size (some x) ≡ ok node)
decode_found-inv (ok none) node e = ground arith
decode_found-inv (ok (some x)) node e = (x, refl, e)
decode_found-inv (err x) node e = ground arith

load-Extends :
    (view view' : View) (h : Bytes) (node : BTreeNode)
    → Extends view view'
    → load view hash_size h ≡ ok node
    → load view' hash_size h ≡ ok node
unfolding load
load-Extends view view' h node f e =
    let (x, found, decoded) = decode_found-inv (view h) node e in rw (f h x found) decoded

-- A tree stays in a store that finds more.
pub Tree-Extends :
    (depth : ℕ) (view view' : View)
    → Extends view view'
    → Grows (Tree depth view) (Tree depth view')
unfolding Tree
Tree-Extends zero view view' f lo hi h es t = t
Tree-Extends (suc depth) view view' f lo hi h es (node, e, n) = (
  node,
  load-Extends view view' h node f e,
  Node-map (Tree depth view) (Tree depth view') lo hi node es (Tree-Extends depth view view' f) n,
)

-- A tree has any larger number of levels as a bound.
pub Tree-deeper : (depth : ℕ) (view : View) → Grows (Tree depth view) (Tree (suc depth) view)
unfolding Tree
Tree-deeper zero view lo hi h es t = elim t [ ]
Tree-deeper (suc depth) view lo hi h es (node, e, n) = (
  node,
  e,
  Node-map (Tree depth view) (Tree (suc depth) view) lo hi node es (Tree-deeper depth view) n,
)

-- A node of a tree can be written.
pub Node-IsValid :
    (P : Holds) (lo hi : Option Bytes) (node : BTreeNode) (es : List ChildEntry)
    → Node P lo hi node es
    → Codec.IsValid hash_size node
Node-IsValid P lo hi _ _ (leaf_node es s n v) = (omega arith, v)
Node-IsValid P lo hi _ _ (internal_node ks hs es n v w c) =
    (omega arith, v, length-Chain P lo hi ks hs es c, w)

-- A node that is found is the root of a tree.
pub found-Tree :
    (depth : ℕ) (view : View) (lo hi : Option Bytes) (node : BTreeNode) (es : List ChildEntry)
    (hash bytes : Bytes)
    → Node (Tree depth view) lo hi node es
    → view hash ≡ ok (some (0, bytes))
    → deserialize bytes hash_size 0 ≡ ok node
    → Tree (suc depth) view lo hi hash es
unfolding Tree load
found-Tree depth view lo hi node es hash bytes n e d = (node, rw e d, n)

module _ (blake3 : Bytes → Bytes)
    (length-blake3 : (input : Bytes) → length (blake3 input) ≡ hash_size) where
  -- The bytes and the hash of a node that is written.
  pub encoded :
      (P : Holds) (lo hi : Option Bytes) (node : BTreeNode) (es : List ChildEntry)
      → Node P lo hi node es
      → (hash : Bytes) × (bytes : Bytes) × (serialize node ≡ ok bytes)
        × (content_hash blake3 blake3_256 node ≡ ok hash)
        × IsHash hash
        × (deserialize bytes hash_size 0 ≡ ok node)
  unfolding content_hash compute_hash
  encoded P lo hi node es n =
      let (bytes, s, d) =
        deserialize-serialize_node hash_size node (omega arith) (Node-IsValid P lo hi node es n) in
      (blake3 (hash_prefix ++ bytes), bytes, s, rw s, length-blake3 (hash_prefix ++ bytes), d)
