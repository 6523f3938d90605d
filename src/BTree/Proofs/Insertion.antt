-- ===== src/BTree/Proofs/Insertion.antt =====
-- About `btree_insert_node_batched` of aeordb-lib/src/engine/btree.rs.
use aeordb.Prelude.{
  ℕ, suc, ◌+◌, ◌*◌, ◌/◌, ◌<◌, ◌≤◌, ◌≡◌, inl, inr, sym, Option, some, List, [], ◌∷◌, ◌++◌, length,
  take, drop, get_or, All, arith, Bool-cases, leb, length-take, length-drop, take-drop,
}
use mathlib.Core.List.{append_assoc}
use aeordb.Bytes.{Bytes}
use aeordb.Errors.{EngineResult, ok}
use aeordb.Format.HashAlgorithm.{blake3_256}
use aeordb.Directory
use aeordb.Directory.{ChildEntry}
use aeordb.BTree.{BTreeNode, leaf, internal}
use aeordb.BTree.Leaf
use aeordb.BTree.Leaf.{first_name}
use aeordb.BTree.Internal
use aeordb.BTree.Codec.{IsKey, deserialize}
use aeordb.BTree.Batch.{InsertResult, done, split, add_done, add_split, add_leaf, add_internal}
use aeordb.BTree.Store.{View, WriteBatch, written}
use aeordb.BTree.Spec.{IsBelow, IsSorted}
use aeordb.BTree.Proofs.Chain.{Holds, Chain, IsOver}
use aeordb.BTree.Proofs.Halves.{All-take, All-drop, All-get_or, leaf_halves, chain_halves}
use aeordb.BTree.Proofs.Tree.{
  hash_size, IsHash, Node, Tree, Tree-Extends, encoded, found-Tree, Node-map,
}
use aeordb.BTree.Proofs.Tree.Node.{leaf_node, internal_node}
use aeordb.BTree.Proofs.Views.{
  Agrees, written-append, Agrees-append, written-Extends, written-found,
}

-- What an insertion below a node gives: a node, or two and the key between them.
unfoldable pub Result :
    Holds → Option Bytes → Option Bytes → InsertResult → List ChildEntry → Type 0
Result P lo hi (done h bytes) es = IsHash h × P lo hi h es
Result P lo hi (split h k h') es =
    IsHash h
    × IsHash h'
    × IsKey k
    × IsOver lo k
    × IsBelow hi k
    × ((xs : List ChildEntry) × (ys : List ChildEntry) × (es ≡ xs ++ ys)
        × P lo (some k) h xs
        × P (some k) hi h' ys)

-- The bytes of a node that was not split are found at its hash.
abbrev pub Stored : View → InsertResult → Type 0
Stored view (done h bytes) = view h ≡ ok (some (0, bytes))
Stored view (split h k h') = Unit {0}

-- Two nodes that share entries.
abbrev Halves :
    Holds → Option Bytes → Option Bytes → BTreeNode → Bytes → BTreeNode → List ChildEntry → Type 0
Halves P lo hi left k right es =
    (xs : List ChildEntry) × (ys : List ChildEntry) × (es ≡ xs ++ ys)
    × Node P lo (some k) left xs
    × Node P (some k) hi right ys

-- Whatever is in the store.
abbrev pub Any : Holds
Any lo hi h es = Unit {0}

-- An insertion appends to the batch, its result has the right form, and is a tree once the batch is
-- written.
unfoldable pub Inserts :
    ℕ
    → View
    → Option Bytes
    → Option Bytes
    → List ChildEntry
    → WriteBatch
    → EngineResult (WriteBatch × InsertResult)
    → Type 0
Inserts depth view lo hi es batch outcome =
    (w : WriteBatch) × (r : InsertResult) × (outcome ≡ ok (batch ++ w, r))
    × Result Any lo hi r es
    × (Agrees view w → Result (Tree depth (written view w)) lo hi r es)
    × (Agrees view w → Stored (written view w) r)

-- A property of the store after the writes so far, and without it.
abbrev pub Eventually : (Holds → Type 0) → ℕ → View → WriteBatch → Type 0
Eventually T depth view w = T Any × (Agrees view w → T (Tree depth (written view w)))

-- What was written last is found.
pub last_written-found :
    (view : View) (w : WriteBatch) (h bytes : Bytes)
    → Agrees view (w ++ ((h, bytes) ∷ []))
    → written view (w ++ ((h, bytes) ∷ [])) h ≡ ok (some (0, bytes))
last_written-found view w h bytes agrees =
    let (_, b) = Agrees-append view w ((h, bytes) ∷ []) agrees in
    rw (written-append view w ((h, bytes) ∷ [])) (written-found (written view w) h bytes [] b)

-- A node that was written last is the root of a tree.
pub last_written-Tree :
    (depth : ℕ) (view : View) (lo hi : Option Bytes) (node : BTreeNode) (es : List ChildEntry)
    (w : WriteBatch) (h bytes : Bytes)
    → deserialize bytes hash_size 0 ≡ ok node
    → (Agrees view w → Node (Tree depth (written view w)) lo hi node es)
    → Agrees view (w ++ ((h, bytes) ∷ []))
    → Tree (suc depth) (written view (w ++ ((h, bytes) ∷ []))) lo hi h es
last_written-Tree depth view lo hi node es w h bytes d dynamic agrees =
    let v = (h, bytes) ∷ [] in
    let view1 = written view w in
    let (a, b) = Agrees-append view w v agrees in
    let grown = Tree-Extends depth view1 (written view1 v) (written-Extends view1 v b) in
    rw (written-append view w v) (
      found-Tree depth (written view1 v) lo hi node es h bytes
        (Node-map (Tree depth view1) (Tree depth (written view1 v)) lo hi node es grown (dynamic a))
        (written-found view1 h bytes [] b) d)

module _ (blake3 : Bytes → Bytes)
    (length-blake3 : (input : Bytes) → length (blake3 input) ≡ hash_size) where
  pub add_done-Inserts :
      (depth : ℕ) (view : View) (lo hi : Option Bytes) (node : BTreeNode) (es : List ChildEntry)
      (batch w : WriteBatch)
      → Eventually (λ P. Node P lo hi node es) depth view w
      → Inserts (suc depth) view lo hi es batch (add_done blake3 blake3_256 node (batch ++ w))
  unfolding add_done Inserts Result
  add_done-Inserts depth view lo hi node es batch w (static, dynamic) =
      let (h, bytes, s, c, len, d) = encoded blake3 length-blake3 Any lo hi node es static in
      (
        w ++ ((h, bytes) ∷ []),
        done h bytes,
        rw (s, c, append_assoc batch w ((h, bytes) ∷ [])),
        (len, tt),
        λ agrees. (len, last_written-Tree depth view lo hi node es w h bytes d dynamic agrees),
        last_written-found view w h bytes,
      )

  add_split-Inserts :
      (depth : ℕ) (view : View) (lo hi : Option Bytes) (left right : BTreeNode) (k : Bytes)
      (es : List ChildEntry) (batch w : WriteBatch)
      → IsKey k
      → IsOver lo k
      → IsBelow hi k
      → Eventually (λ P. Halves P lo hi left k right es) depth view w
      → Inserts
          (suc depth)
          view
          lo
          hi
          es
          batch
          (add_split blake3 blake3_256 left k right (batch ++ w))
  unfolding add_split Inserts Result
  add_split-Inserts depth view lo hi left right k es batch w key over below (static, dynamic) =
      let (xs, ys, e, n, m) = static in
      let (h, bytes, s, c, len, d) = encoded blake3 length-blake3 Any lo (some k) left xs n in
      let (h', bytes', s', c', len', d') =
        encoded blake3 length-blake3 Any (some k) hi right ys m in
      let v = (h, bytes) ∷ (h', bytes') ∷ [] in
      let view1 = written view w in
      let view2 = written view1 v in
      (
        w ++ v,
        split h k h',
        rw (s, s', c, c', append_assoc batch w v),
        (len, len', key, over, below, (xs, ys, e, tt, tt)),
        λ agrees.
            let (a, b) = Agrees-append view w v agrees in
            let grown = Tree-Extends depth view1 view2 (written-Extends view1 v b) in
            let (_, b') = Agrees-append view1 ((h, bytes) ∷ []) ((h', bytes') ∷ []) b in
            let (xs', ys', e', n', m') = dynamic a in
            rw (written-append view w v) (
              len,
              len',
              key,
              over,
              below,
              (
                xs',
                ys',
                e',
                found-Tree depth view2 lo (some k) left xs' h bytes
                    (Node-map (Tree depth view1) (Tree depth view2) lo (some k) left xs' grown n')
                    (written-found view1 h bytes ((h', bytes') ∷ []) b) d,
                found-Tree depth view2 (some k) hi right ys' h' bytes'
                    (Node-map (Tree depth view1) (Tree depth view2) (some k) hi right ys' grown m')
                    (written-found (written view1 ((h, bytes) ∷ [])) h' bytes' [] b') d',
              ),
            ),
        λ agrees. tt,
      )

  first_name-IsKey :
      (es : List ChildEntry)
      → 0 < length es
      → All (Directory.IsValid hash_size) es
      → IsKey (first_name es)
  first_name-IsKey [] h v = absurd omega arith
  first_name-IsKey (e ∷ es) h (v, vs) = record { fits = v.name_fits; utf8 = v.name_utf8 }

  pub add_leaf-Inserts :
      (depth : ℕ) (view : View) (lo hi : Option Bytes) (es : List ChildEntry) (batch : WriteBatch)
      → IsSorted lo hi es
      → length es ≤ 41
      → All (Directory.IsValid hash_size) es
      → Inserts
          (suc depth)
          view
          lo
          hi
          es
          batch
          (add_leaf blake3 blake3_256 (record { entries = es }) (batch ++ []))
  unfolding add_leaf Leaf.is_full Leaf.split
  add_leaf-Inserts depth view lo hi es batch s n v = elim (Bool-cases (leb 40 (length es))) [
    | inl full ↦
        let mid = length es / 2 in
        let many : 40 ≤ length es = ground arith in
        let (over, below, left, right) = leaf_halves lo hi mid es (omega arith) (omega arith) s in
        let taken = length-take mid es in
        let dropped = length-drop mid es in
        let key =
          first_name-IsKey (drop mid es) (omega arith)
            (All-drop (Directory.IsValid hash_size) mid es v) in
        let halves : (P : Holds)
            → Halves P lo hi (leaf (record { entries = take mid es })) (first_name (drop mid es))
                (leaf (record { entries = drop mid es })) es =
          λ P. (
            take mid es,
            drop mid es,
            sym (take-drop mid es),
            leaf_node (take mid es) left (omega arith)
                (All-take (Directory.IsValid hash_size) mid es v),
            leaf_node (drop mid es) right (omega arith)
                (All-drop (Directory.IsValid hash_size) mid es v),
          ) in
        rw full (
          add_split-Inserts depth view lo hi _ _ (first_name (drop mid es)) es batch [] key over
            below (halves Any, λ agrees. halves (Tree depth view)))
    | inr room ↦
        let few : length es ≤ 40 = ground arith in
        rw room (
          add_done-Inserts depth view lo hi _ es batch []
            (leaf_node es s few v, λ agrees. leaf_node es s few v))
  ]

  internal-Halves :
      (P : Holds) (lo hi : Option Bytes) (ks hs : List Bytes) (es : List ChildEntry) (mid : ℕ)
      → length ks ≤ 78
      → mid < length ks
      → length ks ≤ mid * 2 + 2
      → All IsKey ks
      → All IsHash hs
      → Chain P lo hi ks hs es
      → IsOver lo (get_or ks mid [])
        × IsBelow hi (get_or ks mid [])
        × Halves P lo hi
            (internal (record { keys = take mid ks; children = take (suc mid) hs }))
            (get_or ks mid [])
            (internal (record { keys = drop (suc mid) ks; children = drop (suc mid) hs }))
            es
  internal-Halves P lo hi ks hs es mid n h g v w c =
      let (xs, ys, e, over, below, left, right) = chain_halves P lo hi ks hs es mid h c in
      let taken = length-take mid ks in
      let dropped = length-drop (suc mid) ks in
      (
        over,
        below,
        (
          xs,
          ys,
          e,
          internal_node (take mid ks) (take (suc mid) hs) xs (omega arith) (All-take IsKey mid ks v)
              (All-take IsHash (suc mid) hs w) left,
          internal_node (drop (suc mid) ks) (drop (suc mid) hs) ys (omega arith)
              (All-drop IsKey (suc mid) ks v) (All-drop IsHash (suc mid) hs w) right,
        ),
      )

  pub add_internal-Inserts :
      (depth : ℕ) (view : View) (lo hi : Option Bytes) (ks hs : List Bytes) (es : List ChildEntry)
      (batch w : WriteBatch)
      → length ks ≤ 78
      → All IsKey ks
      → All IsHash hs
      → Eventually (λ P. Chain P lo hi ks hs es) depth view w
      → Inserts
          (suc depth)
          view
          lo
          hi
          es
          batch
          (add_internal blake3 blake3_256 (record { keys = ks; children = hs }) (batch ++ w))
  unfolding add_internal Internal.is_full Internal.split
  add_internal-Inserts depth view lo hi ks hs es batch w n v z (static, dynamic) =
      elim (Bool-cases (leb 77 (length ks))) [
        | inl full ↦
            let mid = length ks / 2 in
            let many : 77 ≤ length ks = ground arith in
            let plus : mid + 1 ≡ suc mid = omega arith in
            let halves = λ (P : Holds) (c : Chain P lo hi ks hs es).
              internal-Halves P lo hi ks hs es mid n (omega arith) (omega arith) v z c in
            let (over, below, parts) = halves Any static in
            rw (full, plus)
              (add_split-Inserts depth view lo hi _ _ (get_or ks mid []) es batch w
                (All-get_or IsKey mid ks [] (omega arith) v) over below
                (parts, λ agrees. (halves (Tree depth (written view w)) (dynamic agrees)).2))
        | inr room ↦
            let few : length ks ≤ 77 = ground arith in
            rw room (
              add_done-Inserts depth view lo hi _ es batch w (
                internal_node ks hs es few v z static,
                λ agrees. internal_node ks hs es few v z (dynamic agrees),
              ))
      ]
