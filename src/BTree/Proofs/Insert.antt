-- ===== src/BTree/Proofs/Insert.antt =====
-- About `btree_insert_batched` of aeordb-lib/src/engine/btree.rs: a tree after an insertion.
use aeordb.Prelude.{
  ℕ, zero, suc, ◌+◌, ◌-◌, ◌≤◌, ◌≡◌, refl, sym, ap, ◌∙◌, subst, none, some, List, [], ◌∷◌, ◌++◌,
  length, arith,
}
use native.Mathlib.Nat.{zero-add, suc-add}
use aeordb.Bytes.{Bytes}
use aeordb.Errors.{EngineResult, ok, ◌>>=◌}
use aeordb.Format.HashAlgorithm.{blake3_256}
use aeordb.Directory
use aeordb.Directory.{ChildEntry}
use aeordb.BTree.{BTreeNode, internal}
use aeordb.BTree.Codec.{deserialize}
use aeordb.BTree.Batch.{InsertResult, done, split, add_root, collect_insert}
use aeordb.BTree.Store.{View, WriteBatch, written, load, decode_found}
use aeordb.BTree.Spec.{put}
use aeordb.BTree.Proofs.Chain.{Holds, Grows}
use aeordb.BTree.Proofs.Chain.Chain.{last, link}
use aeordb.BTree.Proofs.Tree.{hash_size, Node, Node-map, Tree, Tree-deeper, encoded}
use aeordb.BTree.Proofs.Tree.Node.{internal_node}
use aeordb.BTree.Proofs.Insertion.{
  Result, Any, Inserts, Eventually, last_written-Tree, last_written-found, Stored,
}
use aeordb.BTree.Proofs.InsertNode.{btree_insert_node_batched-Inserts}
use aeordb.BTree.Proofs.Views.{Agrees}

-- The bytes of the root of a tree, below which there are at most so many levels.
unfoldable pub Rooted : ℕ → View → Bytes → List ChildEntry → Type 0
Rooted depth view root_data es =
    (node : BTreeNode) × (deserialize root_data hash_size 0 ≡ ok node)
    × Node (Tree depth view) none none node es

Tree-le : (k depth : ℕ) (view : View) → Grows (Tree depth view) (Tree (k + depth) view)
Tree-le zero depth view lo hi h es t = rw zero-add t
Tree-le (suc k) depth view lo hi h es t =
    rw suc-add (Tree-deeper (k + depth) view lo hi h es (Tree-le k depth view lo hi h es t))

pub Rooted-deeper :
    (depth bound : ℕ) (view : View) (root_data : Bytes) (es : List ChildEntry)
    → depth ≤ bound
    → Rooted depth view root_data es
    → Rooted bound view root_data es
unfolding Rooted
Rooted-deeper depth bound view root_data es h (node, decoded, n) =
    let sum : bound - depth + depth ≡ bound = omega arith in
    (
      node,
      decoded,
      subst (λ d. Node (Tree d view) none none node es) sum
          (Node-map (Tree depth view) (Tree (bound - depth + depth) view) none none node es
            (Tree-le (bound - depth) depth view) n),
    )

-- The bytes of the root of a tree.
pub Tree-Rooted :
    (depth : ℕ) (view : View) (h bytes : Bytes) (es : List ChildEntry)
    → Tree (suc depth) view none none h es
    → view h ≡ ok (some (0, bytes))
    → Rooted depth view bytes es
unfolding Tree load Rooted
Tree-Rooted depth view h bytes es (node, loaded, n) found =
    (node, sym (ap (λ r. r >>= decode_found hash_size) found) ∙ loaded, n)

-- The two halves of a root that was split, below a new root.
new_root :
    (P : Holds) (h k h' : Bytes) (bytes : List ChildEntry)
    → Result P none none (split h k h') bytes
    → Node P none none (internal (record { keys = k ∷ []; children = h ∷ h' ∷ [] })) bytes
unfolding Result
new_root P h k h' es (len, len', key, over, below, (xs, ys, e, p, q)) =
    internal_node (k ∷ []) (h ∷ h' ∷ []) es (omega arith) (key, tt) (len, (len', tt))
      (rw e (link none none k [] h (h' ∷ []) xs ys over below p (last (some k) none h' ys q)))

module _ (blake3 : Bytes → Bytes)
    (length-blake3 : (input : Bytes) → length (blake3 input) ≡ hash_size) where
  -- What the collected writes lead to.
  unfoldable pub Collects :
      ℕ → View → List ChildEntry → EngineResult (WriteBatch × Bytes × Bytes) → Type 0
  Collects depth view es outcome =
      (w : WriteBatch) × (h : Bytes) × (bytes : Bytes) × (outcome ≡ ok (w, h, bytes))
      × (Agrees view w → Tree depth (written view w) none none h es)
      × (Agrees view w → written view w h ≡ ok (some (0, bytes)))

  add_root-Collects :
      (depth : ℕ) (view : View) (es : List ChildEntry) (w : WriteBatch) (r : InsertResult)
      → Eventually (λ P. Result P none none r es) depth view w
      → (Agrees view w → Stored (written view w) r)
      → Collects (suc depth) view es (add_root blake3 blake3_256 w r)
  unfolding add_root Collects Result
  add_root-Collects depth view es w (done h bytes) (static, dynamic) stored = (
    w,
    h,
    bytes,
    refl,
    λ agrees. Tree-deeper depth (written view w) none none h es (dynamic agrees).1,
    stored,
  )
  add_root-Collects depth view es w (split h k h') (static, dynamic) stored =
      let root = internal (record { keys = k ∷ []; children = h ∷ h' ∷ [] }) in
      let node = new_root Any h k h' es static in
      let (hash, bytes, s, c, len, d) = encoded blake3 length-blake3 Any none none root es node in
      (
        w ++ ((hash, bytes) ∷ []),
        hash,
        bytes,
        rw (s, c),
        last_written-Tree depth view none none root es w hash bytes d
            (λ agrees. new_root (Tree depth (written view w)) h k h' es (dynamic agrees)),
        last_written-found view w hash bytes,
      )

  pub collect_insert-Collects :
      (depth : ℕ) (view : View) (root_data : Bytes) (es : List ChildEntry) (e : ChildEntry)
      → Directory.IsValid hash_size e
      → Rooted depth view root_data es
      → Collects
          (suc (suc depth))
          view
          (put e es)
          (collect_insert blake3 blake3_256 depth view hash_size root_data e)
  unfolding collect_insert Rooted Inserts
  collect_insert-Collects depth view root_data es e valid (node, decoded, n) =
      let (w, r, ran, static, dynamic, stored) =
        btree_insert_node_batched-Inserts blake3 length-blake3 depth view none none node es e []
          valid tt tt n in
      rw (decoded, ran) (add_root-Collects (suc depth) view (put e es) w r (static, dynamic) stored)
