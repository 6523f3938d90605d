-- ===== src/Directory/Loop.antt =====
-- About the loop of `deserialize_child_entries` of aeordb-lib/src/engine/directory_entry.rs.
use aeordb.Prelude.{
  ℕ, zero, suc, ◌≤◌, ◌≡◌, refl, true, List, [], ◌∷◌, ◌++◌, length, arith, All, ltb, length-append,
  drop-append,
}
use aeordb.Bytes.{Bytes}
use aeordb.Errors.{ok}
use aeordb.Directory.{
  ChildEntry, IsValid, entry_fields, serialize_child_entries, deserialize, child_entries_from,
  deserialize_child_entries,
}
use aeordb.Directory.RoundTrip.{
  entry_fields-nonempty, serialize-entry_fields, deserialize_v0-entry_fields,
}

-- The bytes of entries whose strings fit.
unfoldable pub all_fields : List ChildEntry → Bytes
all_fields [] = []
all_fields (e ∷ es) = entry_fields e ++ all_fields es

pub serialize_child_entries-all_fields :
    (hl : ℕ) (es : List ChildEntry)
    → All (IsValid hl) es
    → serialize_child_entries es ≡ ok (all_fields es)
unfolding serialize_child_entries all_fields
serialize_child_entries-all_fields hl [] v = refl
serialize_child_entries-all_fields hl (e ∷ es) (v, vs) =
    rw (serialize-entry_fields hl e v, serialize_child_entries-all_fields hl es vs)

-- With enough fuel the loop reads the entries back.
child_entries_from-all_fields :
    (hl : ℕ) (es : List ChildEntry) (fuel : ℕ)
    → All (IsValid hl) es
    → length (all_fields es) ≤ fuel
    → child_entries_from fuel (all_fields es) hl ≡ ok es
unfolding child_entries_from all_fields deserialize
child_entries_from-all_fields hl [] zero v h = refl
child_entries_from-all_fields hl [] (suc fuel) v h = refl
child_entries_from-all_fields hl (e ∷ es) zero (v, vs) h =
    absurd omega (arith, entry_fields-nonempty e, length-append (entry_fields e) (all_fields es))
child_entries_from-all_fields hl (e ∷ es) (suc fuel) (v, vs) h =
    let size = length-append (entry_fields e) (all_fields es) in
    let more : ltb 0 (length (entry_fields e ++ all_fields es)) ≡ true =
      ground (arith, entry_fields-nonempty e, size) in
    let enough : length (all_fields es) ≤ fuel = omega (arith, entry_fields-nonempty e, size) in
    rw (
      more,
      deserialize_v0-entry_fields hl e (all_fields es) v,
      drop-append (entry_fields e) (all_fields es),
      child_entries_from-all_fields hl es fuel vs enough,
    )

-- A list of entries that are in range is written, and is read back.
pub deserialize-serialize_child_entries :
    (hl : ℕ) (es : List ChildEntry)
    → All (IsValid hl) es
    → (bytes : Bytes) × (serialize_child_entries es ≡ ok bytes)
      × (deserialize_child_entries bytes hl 0 ≡ ok es)
unfolding deserialize_child_entries
deserialize-serialize_child_entries hl es v = (
  all_fields es,
  serialize_child_entries-all_fields hl es v,
  child_entries_from-all_fields hl es (length (all_fields es)) v (omega arith),
)
