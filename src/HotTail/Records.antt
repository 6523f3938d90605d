-- ===== src/HotTail/Records.antt =====
-- About the two loops over records in aeordb-lib/src/engine/hot_tail.rs.
use aeordb.Prelude.{
  ℕ, ◌+◌, ◌<◌, ◌^◌, ◌≡◌, refl, ap, ◌∙◌, ◌*◌, List, [], ◌∷◌, ◌++◌, length, drop, All, arith,
  length-append,
}
use mathlib.Core.List.{append_assoc}
use aeordb.Bytes.{
  Bytes, to_le_bytes, at_slice, at_byte, from_le_bytes-to_le_bytes, fitted_hash, fitted_hash-eq,
  length-fitted_hash,
}
use aeordb.Kv.Entry.{KvEntry, IsValid}
use aeordb.HotTail.{
  VoidRecord, write_record, void_record, write_records, void_records, read_write_record,
  read_void_record, read_write_records, read_void_records, write_record_size, void_record_size,
}

-- The fields are a `u64` and a `u32`.
pub record VoidFits (v : VoidRecord) : Type 0 where
  pub offset_fits : v.offset < 2 ^ 64
  pub size_fits : v.size < 2 ^ 32

read_write_record-write_record :
    (hl : ℕ) (e : KvEntry) (bytes rest : Bytes) (cursor : ℕ)
    → IsValid hl e
    → drop cursor bytes ≡ write_record hl e ++ rest
    → ((read_write_record hl bytes cursor).0 ≡ e)
      × (drop (read_write_record hl bytes cursor).1 bytes ≡ rest)
unfolding write_record read_write_record
read_write_record-write_record hl e bytes rest cursor v at =
    let tail = e.type_flags ∷ (to_le_bytes 8 e.offset ++ (to_le_bytes 4 e.total_length ++ rest)) in
    let start : drop cursor bytes ≡ 1 ∷ (e.hash ++ tail) =
      at
      ∙ ap (λ l. 1 ∷ l)
          (append_assoc (fitted_hash hl e.hash) _ rest
            ∙ ap (λ l. l ++ tail) (fitted_hash-eq hl e.hash v.hash_fits)) in
    let (b0, r0) = at_byte bytes 1 _ cursor start in
    let (b1, r1) = at_slice bytes e.hash tail (cursor + 1) hl v.hash_fits r0 in
    let (b2, r2) = at_byte bytes _ _ (cursor + 1 + hl) r1 in
    let (b3, r3) = at_slice bytes (to_le_bytes 8 e.offset) _ (cursor + 1 + hl + 1) 8 refl r2 in
    let (b4, r4) =
      at_slice bytes (to_le_bytes 4 e.total_length) rest (cursor + 1 + hl + 1 + 8) 4 refl r3 in
    (
      rw (
        b1,
        b2,
        b3,
        b4,
        from_le_bytes-to_le_bytes 8 e.offset v.offset_fits,
        from_le_bytes-to_le_bytes 4 e.total_length v.total_length_fits,
      ),
      r4,
    )

read_void_record-void_record :
    (v : VoidRecord) (bytes rest : Bytes) (cursor : ℕ)
    → VoidFits v
    → drop cursor bytes ≡ void_record v ++ rest
    → ((read_void_record bytes cursor).0 ≡ v)
      × (drop (read_void_record bytes cursor).1 bytes ≡ rest)
unfolding void_record read_void_record
read_void_record-void_record v bytes rest cursor fits at =
    let (b0, r0) = at_byte bytes 1 _ cursor at in
    let (b1, r1) = at_slice bytes (to_le_bytes 8 v.offset) _ (cursor + 1) 8 refl r0 in
    let (b2, r2) = at_slice bytes (to_le_bytes 4 v.size) rest (cursor + 1 + 8) 4 refl r1 in
    (
      rw (
        b1,
        b2,
        from_le_bytes-to_le_bytes 8 v.offset fits.offset_fits,
        from_le_bytes-to_le_bytes 4 v.size fits.size_fits,
      ),
      r2,
    )

pub read_write_records-write_records :
    (hl : ℕ) (es : List KvEntry) (bytes rest : Bytes) (cursor : ℕ)
    → All (IsValid hl) es
    → drop cursor bytes ≡ write_records hl es ++ rest
    → ((read_write_records hl (length es) bytes cursor).0 ≡ es)
      × (drop (read_write_records hl (length es) bytes cursor).1 bytes ≡ rest)
unfolding write_records read_write_records
read_write_records-write_records hl [] bytes rest cursor v at = (refl, at)
read_write_records-write_records hl (e ∷ es) bytes rest cursor (v, vs) at =
    let (b0, r0) =
      read_write_record-write_record hl e bytes (write_records hl es ++ rest) cursor v
        (at ∙ append_assoc (write_record hl e) _ rest) in
    let (b1, r1) =
      read_write_records-write_records hl es bytes rest (read_write_record hl bytes cursor).1 vs
        r0 in
    (rw (b0, b1), r1)

pub read_void_records-void_records :
    (vs : List VoidRecord) (bytes rest : Bytes) (cursor : ℕ)
    → All VoidFits vs
    → drop cursor bytes ≡ void_records vs ++ rest
    → (read_void_records (length vs) bytes cursor).0 ≡ vs
unfolding void_records read_void_records
read_void_records-void_records [] bytes rest cursor fits at = refl
read_void_records-void_records (v ∷ vs) bytes rest cursor (f, fs) at =
    let (b0, r0) =
      read_void_record-void_record v bytes (void_records vs ++ rest) cursor f
        (at ∙ append_assoc (void_record v) _ rest) in
    rw (b0, read_void_records-void_records vs bytes rest (read_void_record bytes cursor).1 fs r0)

length-write_record : (hl : ℕ) (e : KvEntry) → length (write_record hl e) ≡ write_record_size hl
unfolding write_record
length-write_record hl e = omega (
  arith,
  length-fitted_hash hl e.hash,
  length-append (fitted_hash hl e.hash)
      (e.type_flags ∷ (to_le_bytes 8 e.offset ++ to_le_bytes 4 e.total_length)),
)

pub length-write_records :
    (hl : ℕ) (es : List KvEntry) → length (write_records hl es) ≡ length es * write_record_size hl
unfolding write_records
length-write_records hl [] = omega arith
length-write_records hl (e ∷ es) = omega (
  arith,
  length-append (write_record hl e) (write_records hl es),
  length-write_record hl e,
  length-write_records hl es,
)

pub length-void_records :
    (vs : List VoidRecord) → length (void_records vs) ≡ length vs * void_record_size
unfolding void_records void_record
length-void_records [] = omega arith
length-void_records (v ∷ vs) = omega (arith, length-void_records vs)
