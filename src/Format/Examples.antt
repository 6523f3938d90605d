-- ===== src/Format/Examples.antt =====
-- The entry format at concrete values.
use aeordb.Prelude.{◌+◌, ◌^◌, ◌<◌, ◌≤◌, ◌≡◌, ◌↔◌, refl, true, [], ◌∷◌, ◌++◌, replicate, arith}
use aeordb.Errors.{ok}
use aeordb.Format.HashAlgorithm.{blake3_256, hash_length}
use aeordb.Format.Compression.{zstd}
use aeordb.Format.EntryType
use aeordb.Format.EntryType.{chunk}
use aeordb.Format.EntryHeader.{
  EntryHeader, IsValid, serialize, deserialize, verify, compute_total_length, fixed_header_size,
  max_key_or_value_bytes,
}
use aeordb.Format.EntryHeader.RoundTrip.{deserialize-serialize}
use aeordb.Format.EntryHeader.Length.{compute_total_length_exact}
use aeordb.Format.EntryHeader.Verify.{verify_exact}

abbrev header : EntryHeader
header = record {
  entry_version = 0;
  entry_type = chunk;
  flags = 1;
  hash_algo = blake3_256;
  compression_algo = zstd;
  encryption_algo = 0;
  key_length = 32;
  value_length = 70000;
  timestamp = 1700000000000;
  total_length = 70095;
  hash = replicate 32 5;
}

header-IsValid : IsValid header
unfolding hash_length
header-IsValid = omega arith

deserialize-serialize_example :
    deserialize (serialize header ++ (1 ∷ 2 ∷ [])) ≡ ok (header, 1 ∷ 2 ∷ [])
deserialize-serialize_example = deserialize-serialize header (1 ∷ 2 ∷ []) header-IsValid

length_70095 : compute_total_length blake3_256 32 70000 ≡ ok 70095
unfolding compute_total_length hash_length
length_70095 = refl

compute_total_length_exact_example :
    (70095 ≡ fixed_header_size + hash_length blake3_256 + 32 + 70000)
    × (70095 < 2 ^ 32)
    × (32 ≤ max_key_or_value_bytes)
    × (70000 ≤ max_key_or_value_bytes)
compute_total_length_exact_example =
    compute_total_length_exact blake3_256 32 70000 70095 length_70095

verify_exact_example : (verify (λ bytes. bytes) header (2 ∷ []) (3 ∷ []) ≡ true) ↔ (
    (header.hash_algo ≡ blake3_256) × (EntryType.to_u8 chunk ∷ (2 ∷ []) ++ (3 ∷ []) ≡ header.hash))
verify_exact_example = verify_exact (λ bytes. bytes) header (2 ∷ []) (3 ∷ [])
