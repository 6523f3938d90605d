-- ===== src/BTree/Proofs/Queries.antt =====
-- About `btree_lookup` and `btree_list` of aeordb-lib/src/engine/btree.rs.
use aeordb.Prelude.{ℕ, zero, suc, ◌≡◌, refl, sym, ap, ◌∙◌, Option, some, List}
use mathlib.Core.List.{append-nil}
use aeordb.Bytes.{Bytes}
use aeordb.Errors.{EngineResult, ok}
use aeordb.Directory.{ChildEntry}
use aeordb.BTree.{BTreeNode}
use aeordb.BTree.Leaf
use aeordb.BTree.Internal
use aeordb.BTree.Batch.{child_for}
use aeordb.BTree.Query.{lookup_node, btree_lookup, list_children, list_node, btree_list}
use aeordb.BTree.Store.{View}
use aeordb.BTree.Spec.{lookup, IsAbove, IsBelow}
use aeordb.BTree.Proofs.Chain.{Holds, Chain}
use aeordb.BTree.Proofs.Chain.Chain.{last, link}
use aeordb.BTree.Proofs.Focus.{focus}
use aeordb.BTree.Proofs.LeafSearch.{find-lookup}
use aeordb.BTree.Proofs.Tree.{hash_size, Node, Tree, Tree-IsSorted}
use aeordb.BTree.Proofs.Tree.Node.{leaf_node, internal_node}

lookup_node-Node :
    (depth : ℕ) (view : View) (lo hi : Option Bytes) (node : BTreeNode) (es : List ChildEntry)
    (n : Bytes) (below : Bytes → EngineResult (Option ChildEntry))
    → ((lo hi : Option Bytes) (h : Bytes) (es : List ChildEntry)
        → IsAbove lo n
        → IsBelow hi n
        → Tree depth view lo hi h es
        → below h ≡ ok (lookup es n))
    → IsAbove lo n
    → IsBelow hi n
    → Node (Tree depth view) lo hi node es
    → lookup_node view hash_size below n node ≡ ok (lookup es n)
unfolding lookup_node Leaf.find child_for Internal.find_child_index
lookup_node-Node depth view lo hi _ _ n below finds a b (leaf_node es s c v) =
    ap ok (find-lookup lo hi es n s)
lookup_node-Node depth view lo hi _ _ n below finds a b (internal_node ks hs es c v w chain) =
    let F = focus (Tree depth view) lo hi ks hs es n (Tree-IsSorted depth view) a b chain in
    finds F.low F.high _ F.part F.above F.below F.here ∙ ap ok (sym F.lookup_part)

pub btree_lookup-Tree :
    (depth : ℕ) (view : View) (n : Bytes) (lo hi : Option Bytes) (h : Bytes) (es : List ChildEntry)
    → IsAbove lo n
    → IsBelow hi n
    → Tree depth view lo hi h es
    → btree_lookup view hash_size depth h n ≡ ok (lookup es n)
unfolding btree_lookup Tree
btree_lookup-Tree zero view n lo hi h es a b t = elim t [ ]
btree_lookup-Tree (suc depth) view n lo hi h es a b (node, loaded, m) = rw loaded (
    lookup_node-Node depth view lo hi node es n (λ hash. btree_lookup view hash_size depth hash n)
      (btree_lookup-Tree depth view n) a b m)

list_children-Chain :
    (P : Holds) (view : View) (below : Bytes → EngineResult (List ChildEntry))
    (lo hi : Option Bytes) (ks hs : List Bytes) (es : List ChildEntry)
    → ((lo hi : Option Bytes) (h : Bytes) (es : List ChildEntry) → P lo hi h es → below h ≡ ok es)
    → Chain P lo hi ks hs es
    → list_children view hash_size below hs ≡ ok es
unfolding list_children
list_children-Chain P view below _ _ _ _ _ lists (last lo hi h es p) =
    rw (lists lo hi h es p) (ap ok (append-nil es))
list_children-Chain P view below _ _ _ _ _ lists (link lo hi k ks h hs xs ys o b p c) =
    rw (lists lo (some k) h xs p, list_children-Chain P view below (some k) hi ks hs ys lists c)

pub list_node-Node :
    (P : Holds) (view : View) (below : Bytes → EngineResult (List ChildEntry))
    (lo hi : Option Bytes) (node : BTreeNode) (es : List ChildEntry)
    → ((lo hi : Option Bytes) (h : Bytes) (es : List ChildEntry) → P lo hi h es → below h ≡ ok es)
    → Node P lo hi node es
    → list_node view hash_size below node ≡ ok es
unfolding list_node
list_node-Node P view below lo hi _ _ lists (leaf_node es s c v) = refl
list_node-Node P view below lo hi _ _ lists (internal_node ks hs es c v w chain) =
    list_children-Chain P view below lo hi ks hs es lists chain

pub btree_list-Tree :
    (depth : ℕ) (view : View) (lo hi : Option Bytes) (h : Bytes) (es : List ChildEntry)
    → Tree depth view lo hi h es
    → btree_list view hash_size depth h ≡ ok es
unfolding btree_list Tree
btree_list-Tree zero view lo hi h es t = elim t [ ]
btree_list-Tree (suc depth) view lo hi h es (node, loaded, m) = rw loaded (
    list_node-Node (Tree depth view) view (btree_list view hash_size depth) lo hi node es
      (btree_list-Tree depth view) m)
