-- ===== src/BTree/Proofs/Unbatched.antt =====
-- About the two insertions of aeordb-lib/src/engine/btree.rs, with and without a batch.
use aeordb.Prelude.{
  ℕ, zero, suc, ◌≡◌, inl, inr, refl, sym, ap, subst, ◌∙◌, [], ◌∷◌, ◌++◌, Bool-cases, arith,
}
use mathlib.Core.List.{append_assoc, append-nil}
use aeordb.Bytes.{Bytes}
use aeordb.Errors.{EngineResult, ok, ◌>>=◌, bind_inv, ok_injective}
use aeordb.Format.HashAlgorithm.{HashAlgorithm}
use aeordb.Directory.{ChildEntry}
use aeordb.BTree.{BTreeNode, leaf, internal, LeafNode, InternalNode}
use aeordb.BTree.Leaf
use aeordb.BTree.Internal
use aeordb.BTree.Codec.{serialize, deserialize, content_hash}
use aeordb.BTree.Batch.{
  InsertResult, done, split, child_for, add_done, add_split, add_leaf, add_internal, with_child,
  btree_insert_node_batched, add_root, collect_insert,
}
use aeordb.BTree.Insert.{
  store_done, store_split, store_leaf, store_internal, store_with_child, btree_insert_node,
  store_root, btree_insert_with_data,
}
use aeordb.BTree.Store.{WriteBatch, NodeStore, load, store_btree_node}

module _ {S : Type 0} (engine : NodeStore S) (blake3 : Bytes → Bytes) (algo : HashAlgorithm) where
  -- The entries of a batch stored one after another.
  unfoldable pub store_all : S → WriteBatch → EngineResult S
  store_all s [] = ok s
  store_all s ((key, value) ∷ batch) = engine.store_entry s key value >>= λ s'. store_all s' batch

  store_all-append :
      (s s2 : S) (a b : WriteBatch)
      → store_all s (a ++ b) ≡ ok s2
      → (s1 : S) × (store_all s a ≡ ok s1) × (store_all s1 b ≡ ok s2)
  unfolding store_all
  store_all-append s s2 [] b e = (s, refl, e)
  store_all-append s s2 ((k, v) ∷ a) b e =
      let (s0, stored, rest) =
        bind_inv (engine.store_entry s k v) (λ s'. store_all s' (a ++ b)) s2 e in
      let (s1, first, second) = store_all-append s0 s2 a b rest in (s1, rw stored first, second)

  -- What was collected can be stored as it comes.
  Follows :
      WriteBatch
      → EngineResult (WriteBatch × InsertResult)
      → (S → EngineResult (S × InsertResult))
      → Type 0
  Follows batch outcome direct =
      (batch' : WriteBatch) (r : InsertResult)
      → outcome ≡ ok (batch', r)
      → (w : WriteBatch) × (batch' ≡ batch ++ w)
        × ((s s' : S) → store_all s w ≡ ok s' → direct s ≡ ok (s', r))

  add_done-Follows :
      (node : BTreeNode) (batch : WriteBatch)
      → Follows batch (add_done blake3 algo node batch) (λ s. store_done engine blake3 algo s node)
  unfolding Follows add_done store_done store_btree_node store_all
  add_done-Follows node batch batch' r e =
      let (bytes, serialized, e1) = bind_inv (serialize node) _ (batch', r) e in
      let (hash, hashed, e2) = bind_inv (content_hash blake3 algo node) _ (batch', r) e1 in
      let same = ok_injective _ (batch', r) e2 in
      (
        (hash, bytes) ∷ [],
        sym (ap (λ p. p.0) same),
        λ s s' stored.
            let (s1, one, e3) = bind_inv (engine.store_entry s hash bytes) _ s' stored in
            rw (serialized, hashed, one) (λ i. ok (ok_injective s1 s' e3 i, ap (λ p. p.1) same i)),
      )

  store_split-eq :
      (left right : BTreeNode) (k h h' bytes bytes' : Bytes) (s s1 s2 : S)
      → serialize left ≡ ok bytes
      → serialize right ≡ ok bytes'
      → content_hash blake3 algo left ≡ ok h
      → content_hash blake3 algo right ≡ ok h'
      → engine.store_entry s h bytes ≡ ok s1
      → engine.store_entry s1 h' bytes' ≡ ok s2
      → store_split engine blake3 algo s left k right ≡ ok (s2, split h k h')
  unfolding store_split store_btree_node
  store_split-eq left right k h h' bytes bytes' s s1 s2 a b c d one two = rw (a, b, c, d, one, two)

  add_split-Follows :
      (left right : BTreeNode) (k : Bytes) (batch : WriteBatch)
      → Follows batch
          (add_split blake3 algo left k right batch)
          (λ s. store_split engine blake3 algo s left k right)
  unfolding Follows add_split store_all
  add_split-Follows left right k batch batch' r e =
      let (h, hashed, e1) = bind_inv (content_hash blake3 algo left) _ (batch', r) e in
      let (h', hashed', e2) = bind_inv (content_hash blake3 algo right) _ (batch', r) e1 in
      let (bytes, serialized, e3) = bind_inv (serialize left) _ (batch', r) e2 in
      let (bytes', serialized', e4) = bind_inv (serialize right) _ (batch', r) e3 in
      let same = ok_injective _ (batch', r) e4 in
      (
        (h, bytes) ∷ (h', bytes') ∷ [],
        sym (ap (λ p. p.0) same),
        λ s s' stored.
            let (s1, one, e5) = bind_inv (engine.store_entry s h bytes) _ s' stored in
            let (s2, two, e6) = bind_inv (engine.store_entry s1 h' bytes') _ s' e5 in
            store_split-eq left right k h h' bytes bytes' s s1 s2 serialized serialized' hashed
              hashed' one two
            ∙ (λ i. ok (ok_injective s2 s' e6 i, ap (λ p. p.1) same i)),
      )

  add_leaf-Follows :
      (l : LeafNode) (batch : WriteBatch)
      → Follows batch (add_leaf blake3 algo l batch) (λ s. store_leaf engine blake3 algo s l)
  unfolding add_leaf store_leaf
  add_leaf-Follows l batch = elim (Bool-cases (Leaf.is_full l)) [
    | inl full ↦
        let (left, k, right) = Leaf.split l in
        rw full (add_split-Follows (leaf left) (leaf right) k batch)
    | inr room ↦ rw room (add_done-Follows (leaf l) batch)
  ]

  add_internal-Follows :
      (n : InternalNode) (batch : WriteBatch)
      → Follows batch
          (add_internal blake3 algo n batch)
          (λ s. store_internal engine blake3 algo s n)
  unfolding add_internal store_internal
  add_internal-Follows n batch = elim (Bool-cases (Internal.is_full n)) [
    | inl full ↦
        let (left, k, right) = Internal.split n in
        rw full (add_split-Follows (internal left) (internal right) k batch)
    | inr room ↦ rw room (add_done-Follows (internal n) batch)
  ]

  with_child-Follows :
      (n : InternalNode) (i : ℕ) (batch : WriteBatch) (r : InsertResult)
      → Follows batch
          (with_child blake3 algo n i batch r)
          (λ s. store_with_child engine blake3 algo s n i r)
  unfolding with_child store_with_child
  with_child-Follows n i batch (done h bytes) = add_done-Follows _ batch
  with_child-Follows n i batch (split h k h') = add_internal-Follows _ batch

  -- All nodes are read before the first is stored.
  node-Follows :
      (depth : ℕ) (s : S) (hl : ℕ) (node : BTreeNode) (e : ChildEntry) (batch batch' : WriteBatch)
      (r : InsertResult)
      → btree_insert_node_batched blake3 algo depth (engine.get_entry s) hl node e batch
        ≡ ok (batch', r)
      → (w : WriteBatch) × (batch' ≡ batch ++ w)
        × ((s' : S)
            → store_all s w ≡ ok s'
            → btree_insert_node engine blake3 algo depth s hl node e ≡ ok (s', r))
  unfolding btree_insert_node_batched btree_insert_node Follows
  node-Follows depth s hl (leaf l) e batch batch' r ran =
      let (w, same, direct) = add_leaf-Follows (Leaf.upsert l e).0 batch batch' r ran in
      (w, same, direct s)
  node-Follows zero s hl (internal n) e batch batch' r ran = ground arith
  node-Follows (suc depth) s hl (internal n) e batch batch' r ran =
      let (child, loaded, e1) =
        bind_inv (load (engine.get_entry s) hl (child_for n e.name)) _ (batch', r) ran in
      let (p, below, e2) =
        bind_inv (btree_insert_node_batched blake3 algo depth (engine.get_entry s) hl child e batch)
          _ (batch', r) e1 in
      let (w1, same1, direct1) = node-Follows depth s hl child e batch p.0 p.1 below in
      let (w2, same2, direct2) =
        with_child-Follows n (Internal.find_child_index n e.name) p.0 p.1 batch' r e2 in
      (
        w1 ++ w2,
        same2 ∙ (ap (λ b. b ++ w2) same1 ∙ append_assoc batch w1 w2),
        λ s' stored.
            let (s1, first, second) = store_all-append s s' w1 w2 stored in
            rw (loaded, direct1 s1 first) (direct2 s1 s' second),
      )

  root-Follows :
      (batch batch' : WriteBatch) (r : InsertResult) (hash bytes : Bytes)
      → add_root blake3 algo batch r ≡ ok (batch', hash, bytes)
      → (w : WriteBatch) × (batch' ≡ batch ++ w)
        × ((s s' : S)
            → store_all s w ≡ ok s'
            → store_root engine blake3 algo s r ≡ ok (s', hash, bytes))
  unfolding add_root store_root store_all store_btree_node
  root-Follows batch batch' (done h bytes0) hash bytes e =
      let same = ok_injective _ (batch', hash, bytes) e in
      (
        [],
        sym (ap (λ p. p.0) same) ∙ sym (append-nil batch),
        λ s s' stored.
            λ i. ok (ok_injective s s' stored i, ap (λ p. p.1) same i, ap (λ p. p.2) same i),
      )
  root-Follows batch batch' (split h k h') hash bytes e =
      let (bytes0, serialized, e1) = bind_inv (serialize _) _ (batch', hash, bytes) e in
      let (hash0, hashed, e2) = bind_inv (content_hash blake3 algo _) _ (batch', hash, bytes) e1 in
      let same = ok_injective _ (batch', hash, bytes) e2 in
      (
        (hash0, bytes0) ∷ [],
        sym (ap (λ p. p.0) same),
        λ s s' stored.
            let (s1, one, e3) = bind_inv (engine.store_entry s hash0 bytes0) _ s' stored in
            rw (serialized, hashed, one)
              (λ i. ok (ok_injective s1 s' e3 i, ap (λ p. p.1) same i, ap (λ p. p.2) same i)),
      )

  -- If the batch that an insertion collects can be stored entry by entry, the insertion that stores
  -- each node at once ends in the same state, with the same hash and bytes of the root.
  pub btree_insert_with_data-collect_insert :
      (depth : ℕ) (s s' : S) (hl : ℕ) (root_data : Bytes) (e : ChildEntry) (batch : WriteBatch)
      (hash bytes : Bytes)
      → collect_insert blake3 algo depth (engine.get_entry s) hl root_data e
        ≡ ok (batch, hash, bytes)
      → store_all s batch ≡ ok s'
      → btree_insert_with_data engine blake3 algo depth s hl root_data e ≡ ok (s', hash, bytes)
  unfolding collect_insert btree_insert_with_data
  btree_insert_with_data-collect_insert depth s s' hl root_data e batch hash bytes ran stored =
      let (root, decoded, e1) = bind_inv (deserialize root_data hl 0) _ (batch, hash, bytes) ran in
      let (p, inserted, e2) =
        bind_inv (btree_insert_node_batched blake3 algo depth (engine.get_entry s) hl root e []) _
          (batch, hash, bytes) e1 in
      let (w1, same1, direct1) = node-Follows depth s hl root e [] p.0 p.1 inserted in
      let (w2, same2, direct2) = root-Follows p.0 batch p.1 hash bytes e2 in
      let whole = subst (λ b. store_all s b ≡ ok s') (same2 ∙ ap (λ b. b ++ w2) same1) stored in
      let (s1, first, second) = store_all-append s s' w1 w2 whole in
      rw (decoded, direct1 s1 first) (direct2 s1 s' second)
