-- ===== src/BTree/Leaf.antt =====
-- aeordb-lib/src/engine/btree.rs: the methods of `LeafNode`.
use aeordb.Prelude.{
  ◌/◌, Bool, true, false, Option, none, List, [], ◌∷◌, length, take, drop, get_elem?, leb, ltb,
}
use aeordb.Prelude.Edits.{set_at, insert_at, remove_at}
use aeordb.Bytes.{Bytes}
use aeordb.Directory.{ChildEntry}
use aeordb.BTree.{
  LeafNode, Search, found, missing, binary_search, names, btree_max_leaf_entries,
  btree_min_leaf_entries,
}

unfoldable pub new : LeafNode
new = record { entries = [] }

unfoldable pub is_full : LeafNode → Bool
is_full l = leb btree_max_leaf_entries (length l.entries)

unfoldable pub is_underflow : LeafNode → Bool
is_underflow l = ltb (length l.entries) btree_min_leaf_entries

abbrev pub find_at : List ChildEntry → Search → Option ChildEntry
find_at entries (found i) = get_elem? entries i
find_at entries (missing i) = none

unfoldable pub find : LeafNode → Bytes → Option ChildEntry
find l name = find_at l.entries (binary_search (names l.entries) name)

abbrev pub upsert_at : List ChildEntry → ChildEntry → Search → List ChildEntry × Bool
upsert_at entries entry (found i) = (set_at i entry entries, false)
upsert_at entries entry (missing i) = (insert_at i entry entries, true)

-- The node after the call, and whether the entry is new.
unfoldable pub upsert : LeafNode → ChildEntry → LeafNode × Bool
upsert l entry =
    let (entries, inserted) =
      upsert_at l.entries entry (binary_search (names l.entries) entry.name) in
    (record { entries = entries }, inserted)

abbrev pub remove_found : List ChildEntry → Search → List ChildEntry × Bool
remove_found entries (found i) = (remove_at i entries, true)
remove_found entries (missing i) = (entries, false)

-- The node after the call, and whether an entry was removed.
unfoldable pub remove : LeafNode → Bytes → LeafNode × Bool
remove l name =
    let (entries, removed) = remove_found l.entries (binary_search (names l.entries) name) in
    (record { entries = entries }, removed)

abbrev pub first_name : List ChildEntry → Bytes
first_name [] = []
first_name (e ∷ es) = e.name

-- The right half of a leaf that is split is not empty.
unfoldable pub split : LeafNode → LeafNode × Bytes × LeafNode
split l =
    let mid = length l.entries / 2 in
    let right_entries = drop mid l.entries in
    (
      record { entries = take mid l.entries },
      first_name right_entries,
      record { entries = right_entries },
    )
