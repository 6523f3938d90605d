-- ===== src/HotTail/RoundTrip.antt =====
-- About `serialize_hot_tail` and `deserialize_hot_tail` of aeordb-lib/src/engine/hot_tail.rs.
use aeordb.Prelude.{
  ℕ, ◌+◌, ◌*◌, ◌<◌, ◌^◌, ◌≡◌, refl, sym, ◌∙◌, none, some, [], ◌++◌, length, take, All, arith,
  length-append, length-take, take-append_add, ◌-◌, ltb, if◌then◌else◌,
}
use mathlib.Core.List.{append_assoc, append-nil}
use native.Mathlib.Decide.{dec_lt}
use aeordb.Bytes.{Bytes, to_le_bytes, from_le_bytes-to_le_bytes, bytes_eq_refl}
use aeordb.Kv.Entry.{IsValid}
use aeordb.HotTail.{
  HotTailPayload, counts_header, serialize_hot_tail, deserialize_hot_tail, write_records,
  void_records, read_records, hot_tail_magic, hot_tail_header_size, write_record_size,
  void_record_size,
}
use aeordb.HotTail.Records.{
  VoidFits, read_write_records-write_records, read_void_records-void_records, length-write_records,
  length-void_records,
}

-- The counts fit the `u32` fields and the records their field types.
pub record IsValidPayload (hash_length : ℕ) (p : HotTailPayload) : Type 0 where
  pub write_count_fits : length p.writes < 2 ^ 32
  pub void_count_fits : length p.voids < 2 ^ 32
  pub writes_valid : All (IsValid hash_length) p.writes
  pub voids_valid : All VoidFits p.voids

-- The length of a whole hot tail.
abbrev pub hot_tail_size : ℕ → HotTailPayload → ℕ
hot_tail_size hl p =
    hot_tail_header_size
    + length p.writes * write_record_size hl
    + length p.voids * void_record_size

module _ (crc32 : Bytes → ℕ) (crc32_fits : (bytes : Bytes) → crc32 bytes < 2 ^ 32) where
  unfoldable pub header : HotTailPayload → Bytes
  header p = counts_header p ++ to_le_bytes 4 (crc32 (counts_header p))

  -- Behind an intact header only the length is left to test.
  deserialize-header :
      (hl : ℕ) (p : HotTailPayload) (body : Bytes)
      → length p.writes < 2 ^ 32
      → length p.voids < 2 ^ 32
      → deserialize_hot_tail crc32 (header p ++ body) hl ≡ (
          if ltb (hot_tail_header_size + length body) (hot_tail_size hl p)
          then none
          else some (read_records hl (length p.writes) (length p.voids) (header p ++ body)))
  unfolding deserialize_hot_tail header counts_header
  deserialize-header hl p body h k =
      rw
        (
          from_le_bytes-to_le_bytes 4 (length p.writes) h,
          from_le_bytes-to_le_bytes 4 (length p.voids) k,
          from_le_bytes-to_le_bytes 4 (crc32 (counts_header p)) (crc32_fits (counts_header p)),
          bytes_eq_refl hot_tail_magic,
        )
        (ground arith)

  pub serialize-header :
      (hl : ℕ) (p : HotTailPayload) (rest : Bytes)
      → serialize_hot_tail crc32 p hl ++ rest
        ≡ header p ++ (write_records hl p.writes ++ (void_records p.voids ++ rest))
  unfolding serialize_hot_tail header
  serialize-header hl p rest = simp append_assoc

  read_records-records :
      (hl : ℕ) (p : HotTailPayload) (rest : Bytes)
      → IsValidPayload hl p
      → read_records hl
          (length p.writes)
          (length p.voids)
          (header p ++ (write_records hl p.writes ++ (void_records p.voids ++ rest)))
        ≡ p
  unfolding read_records header counts_header
  read_records-records hl p rest v =
      let bytes = header p ++ (write_records hl p.writes ++ (void_records p.voids ++ rest)) in
      let (b0, r0) =
        read_write_records-write_records hl p.writes bytes (void_records p.voids ++ rest)
          hot_tail_header_size v.writes_valid refl in
      let b1 = read_void_records-void_records p.voids bytes rest _ v.voids_valid r0 in
      λ i. record { writes = b0 i; voids = b1 i }

  -- A payload that is in range is read back from its bytes, whatever follows them.
  pub deserialize-serialize_hot_tail :
      (hl : ℕ) (p : HotTailPayload) (rest : Bytes)
      → IsValidPayload hl p
      → deserialize_hot_tail crc32 (serialize_hot_tail crc32 p hl ++ rest) hl ≡ some p
  deserialize-serialize_hot_tail hl p rest v =
      let body = write_records hl p.writes ++ (void_records p.voids ++ rest) in
      rw
        (
          serialize-header hl p rest,
          deserialize-header hl p body v.write_count_fits v.void_count_fits,
          read_records-records hl p rest v,
        )
        (ground (
          arith,
          length-append (write_records hl p.writes) (void_records p.voids ++ rest),
          length-append (void_records p.voids) rest,
          length-write_records hl p.writes,
          length-void_records p.voids,
        ))

  short_refused :
      (hl : ℕ) (bytes : Bytes)
      → length bytes < hot_tail_header_size
      → deserialize_hot_tail crc32 bytes hl ≡ none
  unfolding deserialize_hot_tail
  short_refused hl bytes h = ground arith

  pub length-header : (p : HotTailPayload) → length (header p) ≡ hot_tail_header_size
  unfolding header counts_header
  length-header p = refl

  -- A tail that was cut anywhere, as by a torn write, is refused.
  pub deserialize_hot_tail-cut :
      (hl : ℕ) (p : HotTailPayload) (n : ℕ)
      → IsValidPayload hl p
      → n < hot_tail_size hl p
      → deserialize_hot_tail crc32 (take n (serialize_hot_tail crc32 p hl)) hl ≡ none
  deserialize_hot_tail-cut hl p n v cut = elim (dec_lt n hot_tail_header_size) [
    | yes short ↦ short_refused hl _ (omega (arith, length-take n (serialize_hot_tail crc32 p hl)))
    | no long ↦
        let body = write_records hl p.writes ++ (void_records p.voids ++ []) in
        let k = n - hot_tail_header_size in
        let e : n ≡ length (header p) + k = omega (arith, length-header p) in
        let whole : serialize_hot_tail crc32 p hl ≡ header p ++ body =
          sym (append-nil _) ∙ serialize-header hl p [] in
        rw
          (
            whole,
            e,
            take-append_add (header p) body k,
            deserialize-header hl p (take k body) v.write_count_fits v.void_count_fits,
          )
          (ground (arith, length-take k body))
  ]
