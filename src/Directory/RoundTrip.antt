-- ===== src/Directory/RoundTrip.antt =====
-- About `serialize` and `deserialize` of aeordb-lib/src/engine/directory_entry.rs.
use aeordb.Prelude.{
  ℕ, suc, ◌+◌, ◌<◌, ◌^◌, ◌≡◌, ◌≢◌, refl, true, Option, none, some, [], ◌∷◌, ◌++◌, length, drop,
  arith, leb, ltb, length-append,
}
use mathlib.Core.List.{append_assoc}
use aeordb.Bytes.{Bytes, to_le_bytes, byte_at}
use aeordb.Bytes.Readers.{
  at_within, read_bytes-at, read_string-at, read_u16-at, read_u64-at, read_i64-at,
}
use aeordb.Errors.{ok}
use aeordb.Strings.Utf8.{is_utf8}
use aeordb.Directory.{
  ChildEntry, IsValid, entry_fields, serialize, deserialize_v0, read_content_type, read_u64_or_zero,
  content_type_bytes,
}

pub read_content_type-at :
    (input rest : Bytes) (content_type : Option Bytes) (offset : ℕ)
    → is_utf8 (content_type_bytes content_type) ≡ true
    → content_type ≢ some []
    → drop offset input ≡ content_type_bytes content_type ++ rest
    → (read_content_type input offset (length (content_type_bytes content_type))
        ≡ ok (content_type, offset + length (content_type_bytes content_type)))
      × (drop (offset + length (content_type_bytes content_type)) input ≡ rest)
unfolding read_content_type
read_content_type-at input rest none offset utf8 nonempty at =
    let same : offset + 0 ≡ offset = omega arith in (rw same, rw same at)
read_content_type-at input rest (some []) offset utf8 nonempty at = absurd (nonempty refl)
read_content_type-at input rest (some (b ∷ bytes)) offset utf8 nonempty at =
    let (r, next) =
      read_string-at input (b ∷ bytes) rest offset (suc (length bytes)) refl utf8 at
        (omega arith) in
    (rw r, next)

read_u64_or_zero-at :
    (input rest : Bytes) (n offset : ℕ)
    → n < 2 ^ 64
    → drop offset input ≡ to_le_bytes 8 n ++ rest
    → (read_u64_or_zero input offset ≡ ok (n, offset + 8)) × (drop (offset + 8) input ≡ rest)
unfolding read_u64_or_zero
read_u64_or_zero-at input rest n offset fits at =
    let (r, next) = read_u64-at input rest n offset fits at in
    let within : leb (offset + 8) (length input) ≡ true =
      ground (arith, at_within input (to_le_bytes 8 n) rest offset at (omega arith)) in
    (rw within r, next)

pub ltb_positive : (n : ℕ) → 0 < n → ltb 0 n ≡ true
ltb_positive n h = ground arith

-- The length of an entry, in the order in which it is read.
length-entry_fields :
    (hl : ℕ) (e : ChildEntry)
    → IsValid hl e
    → 1
        + hl
        + 8
        + 8
        + 8
        + 2
        + length e.name
        + 2
        + length (content_type_bytes e.content_type)
        + 8
        + 8
      ≡ length (entry_fields e)
unfolding entry_fields
length-entry_fields hl e v =
    let ct = content_type_bytes e.content_type in
    let tail = to_le_bytes 8 e.virtual_time ++ to_le_bytes 8 e.node_id in
    let named = e.name ++ (to_le_bytes 2 (length ct) ++ (ct ++ tail)) in
    omega (
      arith,
      v.hash_fits,
      length-append ct tail,
      length-append e.name (to_le_bytes 2 (length ct) ++ (ct ++ tail)),
      length-append e.hash (
          to_le_bytes 8 e.total_size
          ++ (to_le_bytes 8 e.created_at
              ++ (to_le_bytes 8 e.updated_at ++ (to_le_bytes 2 (length e.name) ++ named)))),
    )

-- Reading an entry that is in range where it stands, from the start of the input on.
pub deserialize_v0-entry_fields :
    (hl : ℕ) (e : ChildEntry) (rest : Bytes)
    → IsValid hl e
    → deserialize_v0 (entry_fields e ++ rest) hl ≡ ok (e, length (entry_fields e))
unfolding deserialize_v0 entry_fields
deserialize_v0-entry_fields hl e rest v =
    let input = entry_fields e ++ rest in
    let ct = content_type_bytes e.content_type in
    let start : drop 1 input
        ≡ e.hash
          ++ (to_le_bytes 8 e.total_size
              ++ (to_le_bytes 8 e.created_at
                  ++ (to_le_bytes 8 e.updated_at
                      ++ (to_le_bytes 2 (length e.name)
                          ++ (e.name
                              ++ (to_le_bytes 2 (length ct)
                                  ++ (ct
                                      ++ (to_le_bytes 8 e.virtual_time
                                          ++ (to_le_bytes 8 e.node_id ++ rest))))))))) =
      simp append_assoc in
    let (b0, r0) = read_bytes-at input e.hash _ 1 hl v.hash_fits start (omega arith) in
    let (b1, r1) = read_u64-at input _ e.total_size _ v.total_size_fits r0 in
    let (b2, r2) = read_i64-at input _ e.created_at _ v.created_at_fits r1 in
    let (b3, r3) = read_i64-at input _ e.updated_at _ v.updated_at_fits r2 in
    let (b4, r4) = read_u16-at input _ (length e.name) _ (omega (arith, v.name_fits)) r3 in
    let (b5, r5) =
      read_string-at input e.name _ _ (length e.name) refl v.name_utf8 r4 (omega arith) in
    let (b6, r6) = read_u16-at input _ (length ct) _ (omega (arith, v.content_type_fits)) r5 in
    let (b7, r7) =
      read_content_type-at input _ e.content_type _ v.content_type_utf8 v.content_type_nonempty
        r6 in
    let (b8, r8) = read_u64_or_zero-at input _ e.virtual_time _ v.virtual_time_fits r7 in
    let (b9, _) = read_u64_or_zero-at input rest e.node_id _ v.node_id_fits r8 in
    let more : ltb 0 (length input) ≡ true = ltb_positive (length input) (omega arith) in
    let tag : byte_at input 0 ≡ e.entry_type = refl in
    rw (more, tag, b0, b1, b2, b3, b4, b5, b6, b7, b8, b9, length-entry_fields hl e v)

pub serialize-entry_fields :
    (hl : ℕ) (e : ChildEntry) → IsValid hl e → serialize e ≡ ok (entry_fields e)
unfolding serialize
serialize-entry_fields hl e v = ground (arith, v.name_fits, v.content_type_fits)

-- An entry that is in range is written, and is read back with its length, whatever follows it.
pub deserialize-serialize_entry :
    (hl : ℕ) (e : ChildEntry) (rest : Bytes)
    → IsValid hl e
    → (bytes : Bytes) × (serialize e ≡ ok bytes)
      × (deserialize_v0 (bytes ++ rest) hl ≡ ok (e, length bytes))
deserialize-serialize_entry hl e rest v =
    (entry_fields e, serialize-entry_fields hl e v, deserialize_v0-entry_fields hl e rest v)

pub entry_fields-nonempty : (e : ChildEntry) → 0 < length (entry_fields e)
unfolding entry_fields
entry_fields-nonempty e = omega arith
