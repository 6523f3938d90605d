-- ===== src/FileHeader/Fields.antt =====
-- About the fields of a header, in aeordb-lib/src/engine/file_header.rs.
use aeordb.Prelude.{
  ℕ, zero, suc, ◌+◌, ◌<◌, ◌^◌, ◌≡◌, refl, sym, ap, ◌∙◌, Bool, true, false, not, some, [], ◌++◌, ◌∷◌,
  length, take, drop, replicate, arith, length-append, take-append_add, ◌==◌, if◌then◌else◌,
}
use mathlib.Core.List.{append_assoc}
use aeordb.Bytes.{
  Bytes, slice, byte_at, drop-add, at_slice, from_le_bytes, from_le_bytes-to_le_bytes, fitted_hash,
  fitted_hash-eq, length-fitted_hash,
}
use aeordb.Format.HashAlgorithm
use aeordb.Format.HashAlgorithm.{HashAlgorithm, hash_length, from_u16-to_u16}
use aeordb.FileHeader.{
  FileHeader, IsValid, leading_fields, middle_fields, fields, checked_part, file_magic, read_fields,
  file_header_size,
}

-- The fields of a header whose hashes have the right length, and what follows them.
abbrev pub parts : FileHeader → Bytes → Bytes
parts h rest =
    leading_fields h
    ++ (h.head_hash ++ (middle_fields h ++ (h.base_hash ++ (h.target_hash ++ rest))))

pub fields-parts : (h : FileHeader) (rest : Bytes) → IsValid h → fields h ++ rest ≡ parts h rest
unfolding fields
fields-parts h rest v =
    let fitted : (hash : Bytes)
        → length hash ≡ 32
        → fitted_hash (hash_length h.hash_algo) hash ≡ hash =
      λ hash e. fitted_hash-eq _ hash (e ∙ sym v.short_hash) in
    rw
      (
        fitted h.head_hash v.head_hash_fits,
        fitted h.base_hash v.base_hash_fits,
        fitted h.target_hash v.target_hash_fits,
      )
      simp append_assoc

length-leading_fields : (h : FileHeader) → length (leading_fields h) ≡ 65
unfolding leading_fields
length-leading_fields h = refl

length-middle_fields : (h : FileHeader) → length (middle_fields h) ≡ 36
unfolding middle_fields
length-middle_fields h = refl

length-fields : (h : FileHeader) → IsValid h → length (fields h) ≡ 197
unfolding fields
length-fields h v =
    let hl = hash_length h.hash_algo in
    let head = fitted_hash hl h.head_hash in
    let base = fitted_hash hl h.base_hash in
    let target = fitted_hash hl h.target_hash in
    omega (
      arith,
      v.short_hash,
      length-leading_fields h,
      length-middle_fields h,
      length-fitted_hash hl h.head_hash,
      length-fitted_hash hl h.base_hash,
      length-fitted_hash hl h.target_hash,
      length-append (leading_fields h) (head ++ (middle_fields h ++ (base ++ target))),
      length-append head (middle_fields h ++ (base ++ target)),
      length-append (middle_fields h) (base ++ target),
      length-append base target,
    )

pub checked_part-fields : (h : FileHeader) → IsValid h → checked_part h ≡ fields h ++ replicate 55 0
unfolding checked_part
checked_part-fields h v =
    let split : 252 ≡ length (fields h) + 55 = omega (arith, length-fields h v) in
    ap (λ n. take n (fields h ++ replicate file_header_size 0)) split
    ∙ take-append_add (fields h) (replicate file_header_size 0) 55

pub length-checked_part : (h : FileHeader) → IsValid h → length (checked_part h) ≡ 252
length-checked_part h v =
    rw (checked_part-fields h v)
      (omega (arith, length-fields h v, length-append (fields h) (replicate 55 0)))

bool_byte : (b : Bool) → not ((if b then 1 else 0) == 0) ≡ b
bool_byte true = refl
bool_byte false = refl

u16_small : (a : HashAlgorithm) → HashAlgorithm.to_u16 a < 256 ^ 2
unfolding HashAlgorithm.to_u16
u16_small a = ground arith

-- The algorithm is found before its hashes are read.
pub read_algorithm :
    (h : FileHeader) (rest : Bytes)
    → HashAlgorithm.from_u16 (from_le_bytes (slice (parts h rest) 5 2)) ≡ some h.hash_algo
unfolding leading_fields
read_algorithm h rest =
    rw (from_le_bytes-to_le_bytes 2 (HashAlgorithm.to_u16 h.hash_algo) (u16_small h.hash_algo))
      (from_u16-to_u16 h.hash_algo)

-- The three hashes, and where the fields between them stand.
read_hashes :
    (h : FileHeader) (rest : Bytes)
    → IsValid h
    → (slice (parts h rest) 65 32 ≡ h.head_hash)
      × (drop 97 (parts h rest) ≡ middle_fields h ++ (h.base_hash ++ (h.target_hash ++ rest)))
      × (slice (parts h rest) 133 32 ≡ h.base_hash)
      × (slice (parts h rest) 165 32 ≡ h.target_hash)
unfolding leading_fields middle_fields
read_hashes h rest v =
    let bytes = parts h rest in
    let (b0, r0) = at_slice bytes h.head_hash _ 65 32 v.head_hash_fits refl in
    let (_, r1) = at_slice bytes (middle_fields h) _ 97 36 refl r0 in
    let (b2, r2) = at_slice bytes h.base_hash _ 133 32 v.base_hash_fits r1 in
    let (b3, _) = at_slice bytes h.target_hash rest 165 32 v.target_hash_fits r2 in (b0, r0, b2, b3)

-- What stands in the fields between the hashes.
read_middle_fields :
    (h : FileHeader) (rest : Bytes) (k n : ℕ)
    → IsValid h
    → slice (parts h rest) (97 + k) n
      ≡ slice (middle_fields h ++ (h.base_hash ++ (h.target_hash ++ rest))) k n
read_middle_fields h rest k n v = rw (drop-add 97 k (parts h rest), (read_hashes h rest v).1)

byte_at-slice :
    (bytes : Bytes) (offset : ℕ) → byte_at bytes offset ≡ byte_at (slice bytes offset 1) 0
byte_at-slice [] zero = refl
byte_at-slice [] (suc offset) = refl
byte_at-slice (b ∷ bytes) zero = refl
byte_at-slice (b ∷ bytes) (suc offset) = byte_at-slice bytes offset

pub read_fields-parts :
    (h : FileHeader) (rest : Bytes) → IsValid h → read_fields h.hash_algo (parts h rest) ≡ h
unfolding read_fields leading_fields middle_fields
read_fields-parts h rest v =
    let (b0, at, b2, b3) = read_hashes h rest v in
    let middle = λ (k : ℕ) (n : ℕ). read_middle_fields h rest k n v in
    rw (
      v.short_hash,
      b0,
      b2,
      b3,
      byte_at-slice (parts h rest) 105,
      byte_at-slice (parts h rest) 130,
      byte_at-slice (parts h rest) 131,
      byte_at-slice (parts h rest) 132,
      middle 0 8,
      middle 8 1,
      middle 9 8,
      middle 17 8,
      middle 25 8,
      middle 33 1,
      middle 34 1,
      middle 35 1,
      bool_byte h.resize_in_progress,
      from_le_bytes-to_le_bytes 8 h.sequence v.sequence_fits,
      from_le_bytes-to_le_bytes 8 h.created_at v.created_at_fits,
      from_le_bytes-to_le_bytes 8 h.updated_at v.updated_at_fits,
      from_le_bytes-to_le_bytes 8 h.kv_block_offset v.kv_block_offset_fits,
      from_le_bytes-to_le_bytes 8 h.kv_block_length v.kv_block_length_fits,
      from_le_bytes-to_le_bytes 8 h.nvt_offset v.nvt_offset_fits,
      from_le_bytes-to_le_bytes 8 h.nvt_length v.nvt_length_fits,
      from_le_bytes-to_le_bytes 8 h.entry_count v.entry_count_fits,
      from_le_bytes-to_le_bytes 8 h.buffer_kvs_offset v.buffer_kvs_offset_fits,
      from_le_bytes-to_le_bytes 8 h.buffer_nvt_offset v.buffer_nvt_offset_fits,
      from_le_bytes-to_le_bytes 8 h.hot_tail_offset v.hot_tail_offset_fits,
    )

pub read_magic_and_version :
    (h : FileHeader) (rest : Bytes)
    → (slice (parts h rest) 0 4 ≡ file_magic) × (byte_at (parts h rest) 4 ≡ h.header_version)
unfolding leading_fields
read_magic_and_version h rest = (refl, refl)
