-- ===== src/BTree/Proofs/InsertNode.antt =====
-- About `btree_insert_node_batched` and `btree_insert_batched` of aeordb-lib/src/engine/btree.rs.
use aeordb.Prelude.{
  ℕ, zero, suc, ◌+◌, ◌≤◌, ◌≡◌, refl, ap, subst, Option, List, [], ◌∷◌, ◌++◌, length, All, arith,
}
use aeordb.Prelude.Edits.{set_at, insert_at}
use mathlib.Core.List.{append-nil}
use aeordb.Bytes.{Bytes}
use aeordb.Format.HashAlgorithm.{blake3_256}
use aeordb.Directory
use aeordb.Directory.{ChildEntry}
use aeordb.BTree.{BTreeNode, binary_search}
use aeordb.BTree.Leaf
use aeordb.BTree.Internal
use aeordb.BTree.Codec.{IsKey}
use aeordb.BTree.Batch.{
  InsertResult, done, split, add_leaf, with_child, child_for, btree_insert_node_batched,
}
use aeordb.BTree.Store.{View, WriteBatch, written}
use aeordb.BTree.Spec.{put, IsAbove, IsBelow}
use aeordb.BTree.Proofs.Chain.{Holds, Chain, Grows, index}
use aeordb.BTree.Proofs.Entries.{put-IsSorted}
use aeordb.BTree.Proofs.Focus.{Focus, focus}
use aeordb.BTree.Proofs.LeafSearch.{upsert-put, length-put, All-put}
use aeordb.BTree.Proofs.Tree.{hash_size, IsHash, Node, Tree, Tree-IsSorted, Tree-Extends}
use aeordb.BTree.Proofs.Tree.Node.{leaf_node, internal_node}
use aeordb.BTree.Proofs.Insertion.{
  Result, Any, Inserts, Eventually, add_leaf-Inserts, add_done-Inserts, add_internal-Inserts,
}
use aeordb.BTree.Proofs.Views.{written-Extends}

All-set_at {ℓ κ} :
    {A : Type ℓ} (P : A → Type κ) (i : ℕ) (a : A) (xs : List A)
    → P a
    → All P xs
    → All P (set_at i a xs)
All-set_at P i a [] p v = tt
All-set_at P zero a (x ∷ xs) p (q, v) = (p, v)
All-set_at P (suc i) a (x ∷ xs) p (q, v) = (q, All-set_at P i a xs p v)

All-insert_at {ℓ κ} :
    {A : Type ℓ} (P : A → Type κ) (i : ℕ) (a : A) (xs : List A)
    → P a
    → All P xs
    → All P (insert_at i a xs)
All-insert_at P zero a xs p v = (p, v)
All-insert_at P (suc i) a [] p v = (p, tt)
All-insert_at P (suc i) a (x ∷ xs) p (q, v) = (q, All-insert_at P i a xs p v)

length-insert_at {ℓ} :
    {A : Type ℓ} (i : ℕ) (a : A) (xs : List A) → length (insert_at i a xs) ≡ suc (length xs)
length-insert_at zero a xs = refl
length-insert_at (suc i) a [] = refl
length-insert_at (suc i) a (x ∷ xs) = ap suc (length-insert_at i a xs)

module _ (P : Holds) (lo hi : Option Bytes) (ks hs : List Bytes) (es : List ChildEntry)
    (e : ChildEntry) (F : Focus P lo hi ks hs es e.name) where
  -- The chain with the child that was written.
  replaced :
      (Q : Holds) (h bytes : Bytes)
      → Grows P Q
      → Result Q F.low F.high (done h bytes) (put e F.part)
      → Chain Q lo hi ks (set_at (index ks e.name) h hs) (put e es)
  unfolding Result
  replaced Q h bytes grow (len, q) = rw (F.put_part e refl) (F.replace Q h (put e F.part) grow q)

  -- The chain with the halves of the child.
  divided :
      (Q : Holds) (h k h' : Bytes)
      → Grows P Q
      → Result Q F.low F.high (split h k h') (put e F.part)
      → Chain Q lo hi
          (insert_at (index ks e.name) k ks)
          (insert_at (index ks e.name + 1) h' (set_at (index ks e.name) h hs))
          (put e es)
  unfolding Result
  divided Q h k h' grow (len, len', key, over, below, (xs, ys, same, q, r)) =
      rw (F.put_part e refl, same) (F.divide Q k h h' xs ys grow over below q r).1

  -- The key of the halves is not there yet.
  key_place :
      (h k h' : Bytes)
      → Result Any F.low F.high (split h k h') (put e F.part)
      → Grows P Any
      → Internal.place (binary_search ks k) ≡ index ks e.name
  unfolding Result
  key_place h k h' (len, len', key, over, below, (xs, ys, same, q, r)) grow =
      ap Internal.place (F.divide Any k h h' xs ys grow over below tt tt).0

module _ (blake3 : Bytes → Bytes)
    (length-blake3 : (input : Bytes) → length (blake3 input) ≡ hash_size) where
  with_child-Inserts :
      (depth : ℕ) (view : View) (lo hi : Option Bytes) (ks hs : List Bytes) (es : List ChildEntry)
      (e : ChildEntry) (batch w : WriteBatch) (r : InsertResult)
      (F : Focus (Tree depth view) lo hi ks hs es e.name)
      → length ks ≤ 77
      → All IsKey ks
      → All IsHash hs
      → Eventually (λ Q. Result Q F.low F.high r (put e F.part)) depth view w
      → Inserts (suc depth) view lo hi (put e es) batch (
          with_child blake3 blake3_256
            (record { keys = ks; children = hs })
            (index ks e.name)
            (batch ++ w)
            r)
  unfolding with_child Result Internal.insert_key
  with_child-Inserts depth view lo hi ks hs es e batch w (done h bytes) F n v z (static, dynamic) =
      let P = Tree depth view in
      let hs' = set_at (index ks e.name) h hs in
      let hashes = All-set_at IsHash (index ks e.name) h hs static.0 z in
      let node = λ (Q : Holds) (c : Chain Q lo hi ks hs' (put e es)).
        internal_node ks hs' (put e es) n v hashes c in
      add_done-Inserts blake3 length-blake3 depth view lo hi _ (put e es) batch w (
        node Any (replaced P lo hi ks hs es e F Any h bytes (λ a b c d p. tt) static),
        λ agrees. node (Tree depth (written view w)) (
            replaced P lo hi ks hs es e F (Tree depth (written view w)) h bytes
              (Tree-Extends depth view (written view w) (written-Extends view w agrees))
              (dynamic agrees)),
      )
  with_child-Inserts depth view lo hi ks hs es e batch w (split h k h') F n v z (static, dynamic) =
      let P = Tree depth view in
      let i = index ks e.name in
      let place = key_place P lo hi ks hs es e F h k h' static (λ a b c d p. tt) in
      let hashes =
        All-insert_at IsHash (i + 1) h' (set_at i h hs) static.1
          (All-set_at IsHash i h hs static.0 z) in
      rw place (
        add_internal-Inserts blake3 length-blake3 depth view lo hi (insert_at i k ks)
          (insert_at (i + 1) h' (set_at i h hs)) (put e es) batch w
          (omega (arith, length-insert_at i k ks)) (All-insert_at IsKey i k ks static.2 v) hashes
          (
            divided P lo hi ks hs es e F Any h k h' (λ a b c d p. tt) static,
            λ agrees.
                divided P lo hi ks hs es e F (Tree depth (written view w)) h k h'
                  (Tree-Extends depth view (written view w) (written-Extends view w agrees))
                  (dynamic agrees),
          ))

  -- With a bound that the tree keeps, an insertion below a node succeeds.
  pub btree_insert_node_batched-Inserts :
      (depth : ℕ) (view : View) (lo hi : Option Bytes) (node : BTreeNode) (es : List ChildEntry)
      (e : ChildEntry) (batch : WriteBatch)
      → Directory.IsValid hash_size e
      → IsAbove lo e.name
      → IsBelow hi e.name
      → Node (Tree depth view) lo hi node es
      → Inserts
          (suc depth)
          view
          lo
          hi
          (put e es)
          batch
          (btree_insert_node_batched blake3 blake3_256 depth view hash_size node e batch)
  unfolding btree_insert_node_batched Leaf.upsert Inserts Tree child_for Internal.find_child_index
  btree_insert_node_batched-Inserts depth view lo hi _ _ e batch valid above below
        (leaf_node es s n v) =
      let outcome =
        λ (b : WriteBatch). add_leaf blake3 blake3_256 (record { entries = put e es }) b in
      rw (upsert-put e es) (
        subst (λ b. Inserts (suc depth) view lo hi (put e es) batch (outcome b)) (append-nil batch)
          (add_leaf-Inserts blake3 length-blake3 depth view lo hi (put e es) batch
            (put-IsSorted lo hi e es above below s) (omega (arith, length-put e es))
            (All-put (Directory.IsValid hash_size) e es valid v)))
  btree_insert_node_batched-Inserts zero view lo hi _ _ e batch valid above below
        (internal_node ks hs es n v z c) =
      elim ((focus (Tree zero view) lo hi ks hs es e.name (Tree-IsSorted zero view) above below
        c).here) [ ]
  btree_insert_node_batched-Inserts (suc depth) view lo hi _ _ e batch valid above below
        (internal_node ks hs es n v z c) =
      let F =
        focus (Tree (suc depth) view) lo hi ks hs es e.name (Tree-IsSorted (suc depth) view) above
          below c in
      let (child, loaded, m) = F.here in
      let (w, r, ran, static, dynamic, _) =
        btree_insert_node_batched-Inserts depth view F.low F.high child F.part e batch valid F.above
          F.below m in
      rw (loaded, ran)
        (with_child-Inserts (suc depth) view lo hi ks hs es e batch w r F n v z (static, dynamic))
