-- ===== src/Records/Symlink/RoundTrip.antt =====
-- About `serialize` and `deserialize` of aeordb-lib/src/engine/symlink_record.rs.
use aeordb.Prelude.{ℕ, ◌+◌, ◌≤◌, ◌≡◌, refl, true, ◌++◌, length, drop, arith, leb, length-append}
use aeordb.Prelude.Int.{to_bits, from_bits-to_bits, to_bits-lt}
use mathlib.Core.List.{append_assoc}
use aeordb.Bytes.{Bytes, to_le_bytes, from_le_bytes, at_slice, from_le_bytes-to_le_bytes}
use aeordb.Errors.{ok}
use aeordb.Merge.Types.{SymlinkRecord}
use aeordb.Records.Symlink.{IsValid, symlink_fields, serialize, deserialize, deserialize_v0}

length-symlink_fields :
    (r : SymlinkRecord) (rest : Bytes)
    → length (symlink_fields r ++ rest) ≡ 2 + length r.path + 2 + length r.target + 16 + length rest
unfolding symlink_fields
length-symlink_fields r rest =
    let times = to_le_bytes 8 (to_bits r.created_at) ++ to_le_bytes 8 (to_bits r.updated_at) in
    omega (
      arith,
      length-append (symlink_fields r) rest,
      length-append r.target times,
      length-append r.path (to_le_bytes 2 (length r.target) ++ (r.target ++ times)),
    )

-- Lengths that are not below what is asked for.
at_least : (n k : ℕ) → n ≤ k → leb n k ≡ true
at_least n k h = ground arith

deserialize-symlink_fields :
    (r : SymlinkRecord) (rest : Bytes)
    → IsValid r
    → deserialize_v0 (symlink_fields r ++ rest) ≡ ok r
unfolding deserialize_v0 symlink_fields
deserialize-symlink_fields r rest v =
    let input = symlink_fields r ++ rest in
    let n = length r.path in
    let m = length r.target in
    let created = to_bits r.created_at in
    let updated = to_bits r.updated_at in
    let times = to_le_bytes 8 created ++ (to_le_bytes 8 updated ++ rest) in
    let start : drop 0 input
        ≡ to_le_bytes 2 n ++ (r.path ++ (to_le_bytes 2 m ++ (r.target ++ times))) =
      simp append_assoc in
    let (b0, r0) = at_slice input (to_le_bytes 2 n) _ 0 2 refl start in
    let (b1, r1) = at_slice input r.path _ 2 n refl r0 in
    let (b2, r2) = at_slice input (to_le_bytes 2 m) _ (2 + n) 2 refl r1 in
    let (b3, r3) = at_slice input r.target _ (2 + n + 2) m refl r2 in
    let (b4, r4) = at_slice input (to_le_bytes 8 created) _ (2 + n + 2 + m) 8 refl r3 in
    let (b5, _) = at_slice input (to_le_bytes 8 updated) rest (2 + n + 2 + m + 8) 8 refl r4 in
    let size : from_le_bytes (to_le_bytes 2 n) ≡ n =
      from_le_bytes-to_le_bytes 2 n (omega (arith, v.path_fits)) in
    let size' : from_le_bytes (to_le_bytes 2 m) ≡ m =
      from_le_bytes-to_le_bytes 2 m (omega (arith, v.target_fits)) in
    let total = length-symlink_fields r rest in
    let long = at_least 4 (length input) (omega (arith, total)) in
    let long_path = at_least (2 + n + 2) (length input) (omega (arith, total)) in
    let long_target = at_least (2 + n + 2 + m + 16) (length input) (omega (arith, total)) in
    rw (
      long,
      size,
      long_path,
      b1,
      v.path_utf8,
      b2,
      size',
      long_target,
      b3,
      v.target_utf8,
      b4,
      b5,
      from_le_bytes-to_le_bytes 8 created (to_bits-lt r.created_at v.created_at_fits),
      from_le_bytes-to_le_bytes 8 updated (to_bits-lt r.updated_at v.updated_at_fits),
      from_bits-to_bits r.created_at v.created_at_fits,
      from_bits-to_bits r.updated_at v.updated_at_fits,
    )

-- A symlink record that is in range is written, and is read back, whatever follows it.
pub deserialize-serialize_symlink :
    (r : SymlinkRecord) (rest : Bytes)
    → IsValid r
    → (bytes : Bytes) × (serialize r ≡ ok bytes) × (deserialize (bytes ++ rest) 0 ≡ ok r)
unfolding serialize deserialize
deserialize-serialize_symlink r rest v = (
  symlink_fields r,
  ground (arith, v.path_fits, v.target_fits),
  deserialize-symlink_fields r rest v,
)
