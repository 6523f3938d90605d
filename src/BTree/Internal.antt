-- ===== src/BTree/Internal.antt =====
-- aeordb-lib/src/engine/btree.rs: the methods of `InternalNode`.
use aeordb.Prelude.{ℕ, ◌+◌, ◌/◌, Bool, [], length, take, drop, get_or, leb, ltb}
use aeordb.Prelude.Edits.{insert_at}
use aeordb.Bytes.{Bytes}
use aeordb.BTree.{
  InternalNode, Search, found, missing, binary_search, btree_max_internal_keys,
  btree_min_internal_keys,
}

abbrev pub child_index : Search → ℕ
child_index (found i) = i + 1
child_index (missing i) = i

unfoldable pub find_child_index : InternalNode → Bytes → ℕ
find_child_index n name = child_index (binary_search n.keys name)

unfoldable pub is_full : InternalNode → Bool
is_full n = leb btree_max_internal_keys (length n.keys)

unfoldable pub is_underflow : InternalNode → Bool
is_underflow n = ltb (length n.keys) btree_min_internal_keys

abbrev pub place : Search → ℕ
place (found i) = i
place (missing i) = i

unfoldable pub insert_key : InternalNode → Bytes → Bytes → InternalNode
insert_key n key right_child_hash =
    let i = place (binary_search n.keys key) in
    record {
      keys = insert_at i key n.keys;
      children = insert_at (i + 1) right_child_hash n.children;
    }

-- `split_off(mid + 1)` leaves `mid + 1` keys, of which the last is popped.
unfoldable pub split : InternalNode → InternalNode × Bytes × InternalNode
split n =
    let mid = length n.keys / 2 in
    (
      record { keys = take mid n.keys; children = take (mid + 1) n.children },
      get_or n.keys mid [],
      record { keys = drop (mid + 1) n.keys; children = drop (mid + 1) n.children },
    )
