-- ===== src/FileHeader/RoundTrip.antt =====
-- About `serialize` and `deserialize` of aeordb-lib/src/engine/file_header.rs.
use aeordb.Prelude.{
  ℕ, ◌<◌, ◌^◌, ◌≡◌, refl, ap, ◌∙◌, some, [], ◌++◌, length, replicate, arith, length-append, ==_iff,
}
use mathlib.Core.List.{append_assoc}
use aeordb.Bytes.{
  Bytes, to_le_bytes, slice, byte_at, at_slice, from_le_bytes, from_le_bytes-to_le_bytes,
  bytes_eq_refl,
}
use aeordb.Errors.{ok}
use aeordb.Format.HashAlgorithm
use aeordb.Format.HashAlgorithm.{HashAlgorithm, hash_length, from_u16-to_u16}
use aeordb.FileHeader.{
  FileHeader, IsValid, serialize, deserialize, fields, checked_part, file_magic, read_fields,
  with_algorithm, file_header_size,
}
use aeordb.FileHeader.Fields.{
  fields-parts, length-checked_part, checked_part-fields, read_algorithm, read_fields-parts,
  read_magic_and_version, parts,
}

module _ (crc32 : Bytes → ℕ) (crc32_fits : (bytes : Bytes) → crc32 bytes < 2 ^ 32) where
  -- The bytes of a slot.
  abbrev pub slot : FileHeader → Bytes
  slot h = checked_part h ++ to_le_bytes 4 (crc32 (checked_part h))

  serialize-slot : (h : FileHeader) → IsValid h → serialize crc32 h ≡ some (slot h)
  unfolding serialize
  serialize-slot h v = rw (v.short_hash, v.target_hash_fits)

  length-slot : (h : FileHeader) → IsValid h → length (slot h) ≡ file_header_size
  length-slot h v = omega (
    arith,
    length-checked_part h v,
    length-append (checked_part h) (to_le_bytes 4 (crc32 (checked_part h))),
  )

  slot-parts :
      (h : FileHeader)
      → IsValid h
      → slot h ≡ parts h (replicate 55 0 ++ to_le_bytes 4 (crc32 (checked_part h)))
  slot-parts h v =
      let crc = to_le_bytes 4 (crc32 (checked_part h)) in
      ap (λ l. l ++ crc) (checked_part-fields h v)
      ∙ (append_assoc (fields h) (replicate 55 0) crc ∙ fields-parts h (replicate 55 0 ++ crc) v)

  -- The CRC of a slot and the bytes that it covers.
  read_crc :
      (h : FileHeader)
      → IsValid h
      → (slice (slot h) 0 252 ≡ checked_part h)
        × (from_le_bytes (slice (slot h) 252 4) ≡ crc32 (checked_part h))
  read_crc h v =
      let crc = to_le_bytes 4 (crc32 (checked_part h)) in
      let (b0, r0) = at_slice (slot h) (checked_part h) crc 0 252 (length-checked_part h v) refl in
      let (b1, _) = at_slice (slot h) crc [] 252 4 refl (r0 ∙ refl) in
      (b0, ap from_le_bytes b1 ∙ from_le_bytes-to_le_bytes 4 _ (crc32_fits (checked_part h)))

  deserialize-slot : (h : FileHeader) → IsValid h → deserialize crc32 (slot h) ≡ some (ok h)
  unfolding deserialize with_algorithm
  deserialize-slot h v =
      let rest = replicate 55 0 ++ to_le_bytes 4 (crc32 (checked_part h)) in
      let (magic, version) = read_magic_and_version h rest in
      let (covered, stored) = read_crc h v in
      let whole = slot-parts h v in
      rw (
        stored,
        covered,
        ap (λ l. slice l 0 4) whole ∙ magic,
        ap (λ l. byte_at l 4) whole ∙ (version ∙ v.version_supported),
        ap (λ l. HashAlgorithm.from_u16 (from_le_bytes (slice l 5 2))) whole
            ∙ read_algorithm h rest,
        bytes_eq_refl file_magic,
        v.short_hash,
        ap (read_fields h.hash_algo) whole ∙ read_fields-parts h rest v,
        (==_iff (crc32 (checked_part h)) (crc32 (checked_part h))).1 refl,
      )

  -- A valid header is written to a slot of 256 bytes, and is read back from it, for a CRC that fits
  -- 32 bits.
  pub deserialize-serialize_header :
      (h : FileHeader)
      → IsValid h
      → (bytes : Bytes) × (serialize crc32 h ≡ some bytes)
        × (length bytes ≡ file_header_size)
        × (deserialize crc32 bytes ≡ some (ok h))
  deserialize-serialize_header h v =
      (slot h, serialize-slot h v, length-slot h v, deserialize-slot h v)
