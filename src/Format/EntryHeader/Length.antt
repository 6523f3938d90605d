-- ===== src/Format/EntryHeader/Length.antt =====
-- About `compute_total_length` of aeordb-lib/src/engine/entry_header.rs.
use aeordb.Prelude.{ℕ, ◌+◌, ◌^◌, ◌<◌, ◌≤◌, ◌≡◌, arith}
use aeordb.Errors.{ok}
use aeordb.Format.HashAlgorithm.{HashAlgorithm, hash_length}
use aeordb.Format.EntryHeader.{fixed_header_size, max_key_or_value_bytes, compute_total_length}

hash_length_le : (a : HashAlgorithm) → (32 ≤ hash_length a) × (hash_length a ≤ 64)
unfolding hash_length
hash_length_le a = ground arith

-- A total length that is computed is the sum of the header, the key and the value, fits 32
-- bits, and is given only for a key and a value within the limit.
pub compute_total_length_exact :
    (a : HashAlgorithm) (k v n : ℕ)
    → compute_total_length a k v ≡ ok n
    → (n ≡ fixed_header_size + hash_length a + k + v)
      × (n < 2 ^ 32)
      × (k ≤ max_key_or_value_bytes)
      × (v ≤ max_key_or_value_bytes)
unfolding compute_total_length
compute_total_length_exact a k v n h = ground (arith, hash_length_le a)
