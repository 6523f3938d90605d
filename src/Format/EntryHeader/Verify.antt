-- ===== src/Format/EntryHeader/Verify.antt =====
-- About `verify` of aeordb-lib/src/engine/entry_header.rs.
use aeordb.Prelude.{◌≡◌, ◌↔◌, true, ◌∷◌, ◌++◌, arith}
use aeordb.Bytes.{Bytes, bytes_eq_iff}
use aeordb.Format.HashAlgorithm
use aeordb.Format.HashAlgorithm.{blake3_256}
use aeordb.Format.EntryType
use aeordb.Format.EntryHeader.{EntryHeader, verify, compute_hash}

-- `verify` accepts exactly the entries under BLAKE3 whose stored hash is that of the type byte, the
-- key and the value; under an algorithm that is not implemented it rejects.
pub verify_exact :
    (blake3 : Bytes → Bytes) (h : EntryHeader) (key value : Bytes)
    → (verify blake3 h key value ≡ true) ↔ (
        (h.hash_algo ≡ blake3_256)
        × (blake3 (EntryType.to_u8 h.entry_type ∷ key ++ value) ≡ h.hash))
unfolding verify compute_hash HashAlgorithm.compute_hash
verify_exact blake3 h key value =
    ground (arith, bytes_eq_iff (blake3 (EntryType.to_u8 h.entry_type ∷ key ++ value)) h.hash)
