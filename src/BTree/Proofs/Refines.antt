-- ===== src/BTree/Proofs/Refines.antt =====
-- About the operations of aeordb-lib/src/engine/btree.rs as those on a sorted list of entries.
use aeordb.Prelude.{ℕ, suc, ◌≤◌, ◌≡◌, sym, ap, subst, ◌∙◌, none, some, List, length, if◌then◌else◌}
use aeordb.Bytes.{Bytes, bytes_eq}
use aeordb.Errors.{ok, ok_injective}
use aeordb.Format.HashAlgorithm.{blake3_256}
use aeordb.Directory
use aeordb.Directory.{ChildEntry}
use aeordb.BTree.Batch.{collect_insert, btree_insert_batched}
use aeordb.BTree.Query.{btree_lookup, btree_list}
use aeordb.BTree.Store.{View, WriteBatch, NodeStore, written}
use aeordb.BTree.Spec.{put, lookup, IsSorted}
use aeordb.BTree.Proofs.Entries.{lookup-put}
use aeordb.BTree.Proofs.Tree.{hash_size, Tree, Tree-Extends, Tree-IsSorted}
use aeordb.BTree.Proofs.Insert.{
  Rooted, Rooted-deeper, Collects, Tree-Rooted, collect_insert-Collects,
}
use aeordb.BTree.Proofs.Queries.{btree_lookup-Tree, btree_list-Tree}
use aeordb.BTree.Proofs.Views.{Agrees}

-- In a tree that a hash stands for, within a bound on its levels, listing gives its entries, sorted
-- by name, and a lookup of a name is one in that list.
pub btree_list-btree_lookup :
    (depth : ℕ) (view : View) (root_hash : Bytes) (es : List ChildEntry)
    → Tree depth view none none root_hash es
    → (btree_list view hash_size depth root_hash ≡ ok es)
      × IsSorted none none es
      × ((name : Bytes) → btree_lookup view hash_size depth root_hash name ≡ ok (lookup es name))
btree_list-btree_lookup depth view root_hash es t = (
  btree_list-Tree depth view none none root_hash es t,
  Tree-IsSorted depth view none none root_hash es t,
  λ name. btree_lookup-Tree depth view name none none root_hash es tt tt t,
)

module _ (blake3 : Bytes → Bytes)
    (length-blake3 : (input : Bytes) → length (blake3 input) ≡ hash_size) where
  -- Before the flush, an insertion of an entry that is in range into a tree succeeds, with any bound
  -- on the recursion from that of the tree on.
  pub collect_insert_total :
      (depth bound : ℕ) (view : View) (root_data : Bytes) (es : List ChildEntry) (e : ChildEntry)
      → depth ≤ bound
      → Directory.IsValid hash_size e
      → Rooted depth view root_data es
      → (batch : WriteBatch) × (new_hash : Bytes) × (new_data : Bytes) × (collect_insert blake3
            blake3_256 bound view hash_size root_data e
          ≡ ok (batch, new_hash, new_data))
  unfolding Collects
  collect_insert_total depth bound view root_data es e h valid rooted =
      let (w, hash, bytes, ran, _, _) =
        collect_insert-Collects blake3 length-blake3 bound view root_data es e valid
          (Rooted-deeper depth bound view root_data es h rooted) in
      (w, hash, bytes, ran)

  -- If the flush succeeds and no hash of a written node stands for another entry, the insertion of
  -- an entry that is in range into a tree gives a tree that lists the old entries with the new one
  -- in its place, and in which the name of the new one finds it and every other name what it found
  -- before. The bytes returned for the new root are those of that tree, with one level more in the bound.
  pub btree_insert_batched-put :
      {S : Type 0} (engine : NodeStore S) (s s' : S) (depth : ℕ) (root_data : Bytes)
      (es : List ChildEntry) (e : ChildEntry) (batch : WriteBatch) (new_hash new_data : Bytes)
      → Directory.IsValid hash_size e
      → Rooted depth (engine.get_entry s) root_data es
      → collect_insert blake3 blake3_256 depth (engine.get_entry s) hash_size root_data e
        ≡ ok (batch, new_hash, new_data)
      → Agrees (engine.get_entry s) batch
      → engine.flush_batch s batch ≡ ok s'
      → (btree_insert_batched blake3 blake3_256 engine depth s hash_size root_data e
          ≡ ok (s', new_hash, new_data))
        × (btree_list (engine.get_entry s') hash_size (suc (suc depth)) new_hash ≡ ok (put e es))
        × Rooted (suc depth) (engine.get_entry s') new_data (put e es)
        × ((name : Bytes)
            → btree_lookup (engine.get_entry s') hash_size (suc (suc depth)) new_hash name
              ≡ ok (if bytes_eq e.name name then some e else lookup es name))
  unfolding btree_insert_batched Collects
  btree_insert_batched-put engine s s' depth root_data es e batch new_hash new_data valid rooted ran
        agrees flushed =
      let view = engine.get_entry s in
      let (w, hash, bytes, ran', tree, stored) =
        collect_insert-Collects blake3 length-blake3 depth view root_data es e valid rooted in
      let same = ok_injective (w, hash, bytes) (batch, new_hash, new_data) (sym ran' ∙ ran) in
      let built : Tree (suc (suc depth)) (written view batch) none none new_hash (put e es) =
        subst
          (λ p.
            Agrees view p.0 → Tree (suc (suc depth)) (written view p.0) none none p.1 (put e es))
          same tree agrees in
      let after : Tree (suc (suc depth)) (engine.get_entry s') none none new_hash (put e es) =
        Tree-Extends (suc (suc depth)) (written view batch) (engine.get_entry s')
          (λ k x found. engine.get-flush s s' batch k flushed ∙ found) none none new_hash (put e es)
          built in
      let found : engine.get_entry s' new_hash ≡ ok (some (0, new_data)) =
        engine.get-flush s s' batch new_hash flushed
        ∙ subst (λ p. Agrees view p.0 → written view p.0 p.1 ≡ ok (some (0, p.2))) same stored
            agrees in
      (
        rw (ran, flushed),
        btree_list-Tree (suc (suc depth)) (engine.get_entry s') none none new_hash (put e es) after,
        Tree-Rooted (suc depth) (engine.get_entry s') new_hash new_data (put e es) after found,
        λ name.
            btree_lookup-Tree (suc (suc depth)) (engine.get_entry s') name none none new_hash
              (put e es) tt tt after
            ∙ ap ok (lookup-put e es name),
      )
