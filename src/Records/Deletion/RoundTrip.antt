-- ===== src/Records/Deletion/RoundTrip.antt =====
-- About `serialize` and `deserialize` of aeordb-lib/src/engine/deletion_record.rs.
use aeordb.Prelude.{◌+◌, ◌≡◌, refl, ◌++◌, length, drop, arith}
use mathlib.Core.List.{append_assoc}
use aeordb.Bytes.{Bytes, to_le_bytes}
use aeordb.Bytes.Readers.{read_string-at, read_u16-at, read_i64-at}
use aeordb.Errors.{ok}
use aeordb.Directory.{content_type_bytes}
use aeordb.Directory.RoundTrip.{read_content_type-at}
use aeordb.Records.Deletion.{DeletionRecord, IsValid, serialize, deserialize, deserialize_v0}

-- A deletion record that is in range is read back from its bytes, whatever follows them.
pub deserialize-serialize_deletion :
    (r : DeletionRecord) (rest : Bytes) → IsValid r → deserialize (serialize r ++ rest) 0 ≡ ok r
unfolding deserialize deserialize_v0 serialize
deserialize-serialize_deletion r rest v =
    let input = serialize r ++ rest in
    let reason = content_type_bytes r.reason in
    let start : drop 0 input
        ≡ to_le_bytes 2 (length r.path)
          ++ (r.path
              ++ (to_le_bytes 8 r.deleted_at
                  ++ (to_le_bytes 2 (length reason) ++ (reason ++ rest)))) =
      simp append_assoc in
    let (b0, r0) = read_u16-at input _ (length r.path) 0 v.path_fits start in
    let (b1, r1) =
      read_string-at input r.path _ (0 + 2) (length r.path) refl v.path_utf8 r0 (omega arith) in
    let (b2, r2) = read_i64-at input _ r.deleted_at _ v.deleted_at_fits r1 in
    let (b3, r3) = read_u16-at input _ (length reason) _ v.reason_fits r2 in
    let (b4, _) = read_content_type-at input rest r.reason _ v.reason_utf8 v.reason_nonempty r3 in
    rw (b0, b1, b2, b3, b4)
