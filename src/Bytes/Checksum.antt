-- ===== src/Bytes/Checksum.antt =====
-- A checksum that adds the bytes: what the examples take for the CRC.
use aeordb.Prelude.{ℕ, ◌+◌, ◌%◌, ◌^◌, ◌<◌, [], ◌∷◌, arith}
use aeordb.Bytes.{Bytes}

abbrev pub byte_sum : Bytes → ℕ
byte_sum [] = 0
byte_sum (b ∷ bs) = (b + byte_sum bs) % 2 ^ 32

pub byte_sum-lt : (bytes : Bytes) → byte_sum bytes < 2 ^ 32
byte_sum-lt [] = omega arith
byte_sum-lt (b ∷ bs) = omega arith
