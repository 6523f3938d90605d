-- ===== src/Records/File/RoundTrip.antt =====
-- About `serialize` and `deserialize` of aeordb-lib/src/engine/file_record.rs.
use aeordb.Prelude.{
  ℕ, ◌+◌, ◌<◌, ◌≤◌, ◌≡◌, refl, ap, List, [], ◌∷◌, length, drop, All, arith, ==_iff, length-append,
  length-drop,
}
use aeordb.Prelude.Int.{to_bits, from_bits-to_bits, to_bits-lt}
use aeordb.Bytes.{Bytes, to_le_bytes}
use aeordb.Bytes.Readers.{
  at_within, read_string-at, read_bytes-at, read_u16-at, read_u32-at, read_u64-at, read_i64-at,
}
use aeordb.Errors.{ok}
use aeordb.Directory.{content_type_bytes}
use aeordb.Directory.RoundTrip.{read_content_type-at}
use aeordb.Merge.Types.{FileRecord}
use aeordb.Records.File.{
  IsValid, all_hashes, file_fields, serialize, read_hashes, deserialize_with, deserialize,
}

read_hashes-at :
    (hashes : List Bytes) (input : Bytes) (hl offset : ℕ)
    → 0 < hl
    → All (λ hash. length hash ≡ hl) hashes
    → offset ≤ length input
    → drop offset input ≡ all_hashes hashes
    → read_hashes (length hashes) input hl offset ≡ ok (hashes, length input)
unfolding read_hashes all_hashes
read_hashes-at [] input hl offset positive v within at =
    let end : offset ≡ length input = omega (arith, length-drop offset input, ap length at) in
    rw end
read_hashes-at (hash ∷ hashes) input hl offset positive (v, vs) within at =
    let (b0, r0) = read_bytes-at input hash (all_hashes hashes) offset hl v at (omega (arith, v)) in
    let more : offset + hl ≤ length input =
      omega (
        arith,
        length-drop offset input,
        ap length at,
        length-append hash (all_hashes hashes),
        v,
      ) in
    rw (b0, read_hashes-at hashes input hl (offset + hl) positive vs more r0)

deserialize-file_fields :
    (hl : ℕ) (r : FileRecord)
    → 0 < hl
    → IsValid hl r
    → deserialize_with hl (file_fields r) hl ≡ ok r
unfolding deserialize_with file_fields
deserialize-file_fields hl r positive v =
    let input = file_fields r in
    let ct = content_type_bytes r.content_type in
    let n = length r.path in
    let (b0, r0) = read_u16-at input _ n 0 (omega (arith, v.path_fits)) refl in
    let (b1, r1) = read_string-at input r.path _ (0 + 2) n refl v.path_utf8 r0 (omega arith) in
    let (b2, r2) = read_u16-at input _ (length ct) _ (omega (arith, v.content_type_fits)) r1 in
    let (b3, r3) =
      read_content_type-at input _ r.content_type _ v.content_type_utf8 v.content_type_nonempty
        r2 in
    let (b4, r4) = read_u64-at input _ r.total_size _ v.total_size_fits r3 in
    let (b5, r5) =
      read_i64-at input _ (to_bits r.created_at) _ (to_bits-lt r.created_at v.created_at_fits) r4 in
    let (b6, r6) =
      read_i64-at input _ (to_bits r.updated_at) _ (to_bits-lt r.updated_at v.updated_at_fits) r5 in
    let (b7, r7) = read_bytes-at input r.content_hash _ _ hl v.content_hash_fits r6 (omega arith) in
    let (b8, r8) = read_u32-at input _ (length r.metadata) _ (omega (arith, v.metadata_fits)) r7 in
    let (b9, r9) = read_bytes-at input r.metadata _ _ (length r.metadata) refl r8 (omega arith) in
    let (b10, r10) =
      read_u32-at input (all_hashes r.chunk_hashes) (length r.chunk_hashes) _
        (omega (arith, v.chunk_count_fits)) r9 in
    let within =
      at_within input (to_le_bytes 4 (length r.chunk_hashes)) (all_hashes r.chunk_hashes) _ r9
        (omega arith) in
    let b11 = read_hashes-at r.chunk_hashes input hl _ positive v.chunk_hashes_fit within r10 in
    rw (
      b0,
      b1,
      b2,
      b3,
      b4,
      b5,
      b6,
      b7,
      b8,
      b9,
      b10,
      b11,
      (==_iff (length input) (length input)).1 refl,
      from_bits-to_bits r.created_at v.created_at_fits,
      from_bits-to_bits r.updated_at v.updated_at_fits,
    )

-- A file record that is in range is written, and is read back as version 1, for hashes that are not
-- empty.
pub deserialize-serialize_file :
    (hl : ℕ) (r : FileRecord)
    → 0 < hl
    → IsValid hl r
    → (bytes : Bytes) × (serialize r hl ≡ ok bytes) × (deserialize bytes hl 1 ≡ ok r)
unfolding serialize deserialize
deserialize-serialize_file hl r positive v = (
  file_fields r,
  ground (
    arith, v.path_fits, v.content_type_fits, v.metadata_fits, v.chunk_count_fits,
    v.content_hash_fits,
  ),
  deserialize-file_fields hl r positive v,
)
