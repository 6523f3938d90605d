-- ===== src/Bytes/Readers.antt =====
-- aeordb-lib/src/engine/binary_utils.rs: reading little-endian integers, bytes and strings at an
-- offset. Each reader returns the offset after it. An `i64` is kept as its bit pattern.
use aeordb.Prelude.{
  ℕ, ◌+◌, ◌≤◌, ◌<◌, ◌^◌, ◌≡◌, refl, ap, true, ◌++◌, length, drop, arith, leb, length-append,
  length-drop,
}
use aeordb.Bytes.{Bytes, to_le_bytes, from_le_bytes, slice, at_slice, from_le_bytes-to_le_bytes}
use aeordb.Errors.{EngineResult, ok, ◌>>=◌, ◌>>◌, guard, unexpected_eof, corrupt_entry}
use aeordb.Strings.Utf8.{is_utf8}

unfoldable pub read_bytes : Bytes → ℕ → ℕ → EngineResult (Bytes × ℕ)
read_bytes input offset len = do
  guard (leb (offset + len) (length input)) unexpected_eof
  ok (slice input offset len, offset + len)

unfoldable pub read_u16 : Bytes → ℕ → EngineResult (ℕ × ℕ)
read_u16 input offset = do
  guard (leb (offset + 2) (length input)) unexpected_eof
  ok (from_le_bytes (slice input offset 2), offset + 2)

unfoldable pub read_u32 : Bytes → ℕ → EngineResult (ℕ × ℕ)
read_u32 input offset = do
  guard (leb (offset + 4) (length input)) unexpected_eof
  ok (from_le_bytes (slice input offset 4), offset + 4)

unfoldable pub read_u64 : Bytes → ℕ → EngineResult (ℕ × ℕ)
read_u64 input offset = do
  guard (leb (offset + 8) (length input)) unexpected_eof
  ok (from_le_bytes (slice input offset 8), offset + 8)

unfoldable pub read_i64 : Bytes → ℕ → EngineResult (ℕ × ℕ)
read_i64 input offset = do
  guard (leb (offset + 8) (length input)) unexpected_eof
  ok (from_le_bytes (slice input offset 8), offset + 8)

unfoldable pub read_string : Bytes → ℕ → ℕ → EngineResult (Bytes × ℕ)
read_string input offset len = do
  (bytes, offset) ← read_bytes input offset len
  guard (is_utf8 bytes) corrupt_entry
  ok (bytes, offset)

-- What stands at an offset ends within the input.
pub at_within :
    (input xs rest : Bytes) (offset : ℕ)
    → drop offset input ≡ xs ++ rest
    → 0 < length xs + length rest
    → offset + length xs ≤ length input
at_within input xs rest offset at nonempty =
    omega (arith, length-drop offset input, ap length at, length-append xs rest)

-- Reading what stands at the offset, and what stands at the next.
pub read_bytes-at :
    (input xs rest : Bytes) (offset len : ℕ)
    → length xs ≡ len
    → drop offset input ≡ xs ++ rest
    → 0 < length xs + length rest
    → (read_bytes input offset len ≡ ok (xs, offset + len)) × (drop (offset + len) input ≡ rest)
unfolding read_bytes
read_bytes-at input xs rest offset len e at nonempty =
    let (b, r) = at_slice input xs rest offset len e at in
    let within : leb (offset + len) (length input) ≡ true =
      ground (arith, at_within input xs rest offset at nonempty) in
    (rw (within, b), r)

pub read_string-at :
    (input xs rest : Bytes) (offset len : ℕ)
    → length xs ≡ len
    → is_utf8 xs ≡ true
    → drop offset input ≡ xs ++ rest
    → 0 < length xs + length rest
    → (read_string input offset len ≡ ok (xs, offset + len)) × (drop (offset + len) input ≡ rest)
unfolding read_string
read_string-at input xs rest offset len e utf8 at nonempty =
    let (b, r) = read_bytes-at input xs rest offset len e at nonempty in (rw (b, utf8), r)

pub read_u16-at :
    (input rest : Bytes) (n offset : ℕ)
    → n < 2 ^ 16
    → drop offset input ≡ to_le_bytes 2 n ++ rest
    → (read_u16 input offset ≡ ok (n, offset + 2)) × (drop (offset + 2) input ≡ rest)
unfolding read_u16
read_u16-at input rest n offset fits at =
    let (b, r) = at_slice input (to_le_bytes 2 n) rest offset 2 refl at in
    let within : leb (offset + 2) (length input) ≡ true =
      ground (arith, at_within input (to_le_bytes 2 n) rest offset at (omega arith)) in
    (rw (within, b, from_le_bytes-to_le_bytes 2 n fits), r)

pub read_u64-at :
    (input rest : Bytes) (n offset : ℕ)
    → n < 2 ^ 64
    → drop offset input ≡ to_le_bytes 8 n ++ rest
    → (read_u64 input offset ≡ ok (n, offset + 8)) × (drop (offset + 8) input ≡ rest)
unfolding read_u64
read_u64-at input rest n offset fits at =
    let (b, r) = at_slice input (to_le_bytes 8 n) rest offset 8 refl at in
    let within : leb (offset + 8) (length input) ≡ true =
      ground (arith, at_within input (to_le_bytes 8 n) rest offset at (omega arith)) in
    (rw (within, b, from_le_bytes-to_le_bytes 8 n fits), r)

pub read_i64-at :
    (input rest : Bytes) (n offset : ℕ)
    → n < 2 ^ 64
    → drop offset input ≡ to_le_bytes 8 n ++ rest
    → (read_i64 input offset ≡ ok (n, offset + 8)) × (drop (offset + 8) input ≡ rest)
unfolding read_i64 read_u64
read_i64-at = read_u64-at

pub read_u32-at :
    (input rest : Bytes) (n offset : ℕ)
    → n < 2 ^ 32
    → drop offset input ≡ to_le_bytes 4 n ++ rest
    → (read_u32 input offset ≡ ok (n, offset + 4)) × (drop (offset + 4) input ≡ rest)
unfolding read_u32
read_u32-at input rest n offset fits at =
    let (b, r) = at_slice input (to_le_bytes 4 n) rest offset 4 refl at in
    let within : leb (offset + 4) (length input) ≡ true =
      ground (arith, at_within input (to_le_bytes 4 n) rest offset at (omega arith)) in
    (rw (within, b, from_le_bytes-to_le_bytes 4 n fits), r)
