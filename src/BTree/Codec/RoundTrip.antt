-- ===== src/BTree/Codec/RoundTrip.antt =====
-- About `serialize` and `deserialize` of `BTreeNode` in aeordb-lib/src/engine/btree.rs.
use aeordb.Prelude.{
  ℕ, suc, ◌+◌, ◌<◌, ◌≤◌, ◌≡◌, refl, sym, ap, ◌∙◌, true, List, [], ◌∷◌, ◌++◌, length, drop, arith,
  All, leb, ◌==◌, false, if◌then◌else◌,
}
use mathlib.Core.List.{append_assoc, append-nil}
use aeordb.Bytes.{Bytes, to_le_bytes, from_le_bytes, at_slice, from_le_bytes-to_le_bytes}
use aeordb.Bytes.Readers.{at_within}
use aeordb.Errors.{EngineResult, ok}
use aeordb.Directory
use aeordb.Directory.{deserialize_child_entries}
use aeordb.Directory.Loop.{deserialize-serialize_child_entries}
use aeordb.BTree.{BTreeNode, leaf, internal, LeafNode, InternalNode}
use aeordb.BTree.Codec.{
  IsKey, IsValid, serialize_keys, all_children, serialize, read_keys, read_children, read_leaf,
  read_internal, deserialize_v0, deserialize,
}

unfoldable all_keys : List Bytes → Bytes
all_keys [] = []
all_keys (key ∷ keys) = to_le_bytes 2 (length key) ++ (key ++ all_keys keys)

serialize_keys-all_keys :
    (keys : List Bytes) → All IsKey keys → serialize_keys keys ≡ ok (all_keys keys)
unfolding serialize_keys all_keys
serialize_keys-all_keys [] v = refl
serialize_keys-all_keys (key ∷ keys) (v, vs) =
    let within : leb (length key) 65535 ≡ true = ground (arith, v.fits) in
    rw (within, serialize_keys-all_keys keys vs)

read_keys-at :
    (keys : List Bytes) (input rest : Bytes) (offset : ℕ)
    → All IsKey keys
    → drop offset input ≡ all_keys keys ++ rest
    → (end : ℕ) × (read_keys (length keys) input offset ≡ ok (keys, end)) × (drop end input ≡ rest)
unfolding read_keys all_keys
read_keys-at [] input rest offset v at = (offset, refl, at)
read_keys-at (key ∷ keys) input rest offset (v, vs) at =
    let n = length key in
    let more = all_keys keys ++ rest in
    let here : drop offset input ≡ to_le_bytes 2 n ++ (key ++ more) =
      at ∙ ap (λ l. to_le_bytes 2 n ++ l) (append_assoc key (all_keys keys) rest) in
    let (b0, r0) = at_slice input (to_le_bytes 2 n) (key ++ more) offset 2 refl here in
    let (b1, r1) = at_slice input key more (offset + 2) n refl r0 in
    let (end, b2, r2) = read_keys-at keys input rest (offset + 2 + n) vs r1 in
    let whole : offset + suc (suc n) ≤ length input =
      at_within input (to_le_bytes 2 n ++ key) more offset here (omega arith) in
    let within0 : leb (offset + 2) (length input) ≡ true = ground arith in
    let within1 : leb (offset + 2 + n) (length input) ≡ true = ground arith in
    let size : from_le_bytes (to_le_bytes 2 n) ≡ n =
      from_le_bytes-to_le_bytes 2 n (omega (arith, v.fits)) in
    (end, rw (within0, b0, size, within1, b1, v.utf8, b2), r2)

read_children-at :
    (children : List Bytes) (input rest : Bytes) (hl offset : ℕ)
    → 0 < hl
    → All (λ child. length child ≡ hl) children
    → drop offset input ≡ all_children children ++ rest
    → read_children (length children) input hl offset ≡ ok children
unfolding read_children all_children
read_children-at [] input rest hl offset positive v at = refl
read_children-at (child ∷ children) input rest hl offset positive (v, vs) at =
    let more = all_children children ++ rest in
    let here : drop offset input ≡ child ++ more =
      at ∙ append_assoc child (all_children children) rest in
    let (b0, r0) = at_slice input child more offset hl v here in
    let whole : offset + length child ≤ length input =
      at_within input child more offset here (omega (arith, v)) in
    let within : leb (offset + hl) (length input) ≡ true = ground (arith, v) in
    rw (within, b0, read_children-at children input rest hl (offset + hl) positive vs r0)

suc_positive : (n : ℕ) → (suc n == 0) ≡ false
suc_positive n = ground arith

-- No entries are read for a count of zero.
counted :
    (es : List Directory.ChildEntry)
    → Path
        (EngineResult (List Directory.ChildEntry))
        (if length es == 0 then ok [] else ok es)
        (ok es)
counted [] = refl
counted (e ∷ es) = rw (suc_positive (length es))

leaf-deserialize :
    (hl : ℕ) (l : LeafNode)
    → IsValid hl (leaf l)
    → (bytes : Bytes) × (serialize (leaf l) ≡ ok bytes) × (deserialize bytes hl 0 ≡ ok (leaf l))
unfolding serialize deserialize deserialize_v0 read_leaf
leaf-deserialize hl l (fits, v) =
    let (bytes, s, d) = deserialize-serialize_child_entries hl l.entries v in
    let n = length l.entries in
    let size : from_le_bytes (to_le_bytes 2 n) ≡ n = from_le_bytes-to_le_bytes 2 n fits in
    let long : leb 3 (suc (suc (suc (length bytes)))) ≡ true = ground arith in
    (
      0 ∷ (to_le_bytes 2 n ++ bytes),
      rw s,
      rw (long, size, d, suc_positive (suc (suc (length bytes))), counted l.entries),
    )

internal-deserialize :
    (hl : ℕ) (node : InternalNode)
    → 0 < hl
    → IsValid hl (internal node)
    → (bytes : Bytes) × (serialize (internal node) ≡ ok bytes)
      × (deserialize bytes hl 0 ≡ ok (internal node))
unfolding serialize deserialize deserialize_v0 read_internal
internal-deserialize hl node positive (fits, v, count, w) =
    let n = length node.keys in
    let body = all_keys node.keys ++ all_children node.children in
    let input = 1 ∷ (to_le_bytes 2 n ++ body) in
    let size : from_le_bytes (to_le_bytes 2 n) ≡ n = from_le_bytes-to_le_bytes 2 n fits in
    let long : leb 3 (length input) ≡ true = ground arith in
    let nonempty : (length input == 0) ≡ false = suc_positive _ in
    let (end, b, r) = read_keys-at node.keys input (all_children node.children) 3 v refl in
    let c : read_children (n + 1) input hl end ≡ ok node.children =
      rw (← count)
        (read_children-at node.children input [] hl end positive w (r ∙ sym (append-nil _))) in
    (input, rw (serialize_keys-all_keys node.keys v), rw (long, nonempty, size, b, c))

-- A node that is in range is written, and is read back, for hashes that are not empty.
pub deserialize-serialize_node :
    (hl : ℕ) (node : BTreeNode)
    → 0 < hl
    → IsValid hl node
    → (bytes : Bytes) × (serialize node ≡ ok bytes) × (deserialize bytes hl 0 ≡ ok node)
deserialize-serialize_node hl (leaf l) positive v = leaf-deserialize hl l v
deserialize-serialize_node hl (internal n) positive v = internal-deserialize hl n positive v
