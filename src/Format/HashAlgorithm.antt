-- ===== src/Format/HashAlgorithm.antt =====
-- aeordb-lib/src/engine/hash_algorithm.rs: the hash algorithms and their numbers. BLAKE3 is a
-- parameter.
use aeordb.Prelude.{ℕ, ◌≡◌, Option, none, some, arith, ◌==◌, if◌then◌else◌}
use aeordb.Bytes.{Bytes}
use aeordb.Errors.{EngineResult, ok, err, invalid_hash_algorithm}

pub data HashAlgorithm : Type 0 where
  blake3_256 sha256 sha512 sha3_256 sha3_512 : HashAlgorithm

unfoldable pub hash_length : HashAlgorithm → ℕ
hash_length blake3_256 = 32
hash_length sha256 = 32
hash_length sha512 = 64
hash_length sha3_256 = 32
hash_length sha3_512 = 64

unfoldable pub to_u16 : HashAlgorithm → ℕ
to_u16 blake3_256 = 1
to_u16 sha256 = 2
to_u16 sha512 = 3
to_u16 sha3_256 = 4
to_u16 sha3_512 = 5

unfoldable pub from_u16 : ℕ → Option HashAlgorithm
from_u16 value =
    if value == 1
    then some blake3_256
    else if value == 2
    then some sha256
    else if value == 3
    then some sha512
    else if value == 4
    then some sha3_256
    else if value == 5
    then some sha3_512
    else none

-- `blake3::hash` is the parameter; the other algorithms are declared and not implemented.
unfoldable pub compute_hash : (Bytes → Bytes) → HashAlgorithm → Bytes → EngineResult Bytes
unfolding to_u16
compute_hash blake3 blake3_256 bytes = ok (blake3 bytes)
compute_hash blake3 other bytes = err (invalid_hash_algorithm (to_u16 other))

pub from_u16-to_u16 : (a : HashAlgorithm) → from_u16 (to_u16 a) ≡ some a
unfolding from_u16 to_u16
from_u16-to_u16 a = ground arith

-- The numbers that `from_u16` accepts are those that `to_u16` gives.
pub to_u16-from_u16 : (n : ℕ) (a : HashAlgorithm) → from_u16 n ≡ some a → to_u16 a ≡ n
unfolding from_u16 to_u16
to_u16-from_u16 n a h = ground arith
