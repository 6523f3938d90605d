-- ===== src/Format/Compression.antt =====
-- aeordb-lib/src/engine/compression.rs: the compression algorithms. `zstd` itself is third-party.
use aeordb.Prelude.{ℕ, ◌≡◌, Option, none, some, arith, ◌==◌, if◌then◌else◌}
use aeordb.Bytes.{Bytes}
use aeordb.Errors.{EngineResult, ok, err, io_error}

pub data CompressionAlgorithm : Type 0 where
  uncompressed zstd : CompressionAlgorithm

unfoldable pub to_u8 : CompressionAlgorithm → ℕ
to_u8 uncompressed = 0
to_u8 zstd = 1

unfoldable pub from_u8 : ℕ → Option CompressionAlgorithm
from_u8 value = if value == 0 then some uncompressed else if value == 1 then some zstd else none

pub from_u8-to_u8 : (a : CompressionAlgorithm) → from_u8 (to_u8 a) ≡ some a
unfolding from_u8 to_u8
from_u8-to_u8 a = ground arith

pub to_u8-from_u8 : (n : ℕ) (a : CompressionAlgorithm) → from_u8 n ≡ some a → to_u8 a ≡ n
unfolding from_u8 to_u8
to_u8-from_u8 n a h = ground arith

-- The two calls of the zstd library, which may fail with an I/O error.
module _ (encode_all decode_all : Bytes → Option Bytes) where
  or_io_error : Option Bytes → EngineResult Bytes
  or_io_error none = err io_error
  or_io_error (some bytes) = ok bytes

  pub compress : Bytes → CompressionAlgorithm → EngineResult Bytes
  compress bytes uncompressed = ok bytes
  compress bytes zstd = or_io_error (encode_all bytes)

  pub decompress : Bytes → CompressionAlgorithm → EngineResult Bytes
  decompress bytes uncompressed = ok bytes
  decompress bytes zstd = or_io_error (decode_all bytes)

  -- What the documentation of zstd promises: decoding an encoded stream gives the data back.
  pub decompress-compress :
      ((x y : Bytes) → encode_all x ≡ some y → decode_all y ≡ some x)
      → (x y : Bytes) (a : CompressionAlgorithm) → compress x a ≡ ok y
      → decompress y a ≡ ok x
  unfolding compress decompress or_io_error
  decompress-compress zstd_law x y uncompressed h = ground arith
  decompress-compress zstd_law x y zstd h = ground (arith, zstd_law x y)
