-- ===== src/Format/EntryHeader/RoundTrip.antt =====
-- About `serialize` and `deserialize` of aeordb-lib/src/engine/entry_header.rs.
use aeordb.Prelude.{
  ℕ, ◌≡◌, refl, ◌<◌, ◌^◌, [], ◌++◌, length, length-append, take-append, drop-append, arith,
}
use aeordb.Bytes.{Bytes, from_le_bytes-to_le_bytes}
use aeordb.Errors.{ok}
use aeordb.Format.HashAlgorithm
use aeordb.Format.HashAlgorithm.{HashAlgorithm, hash_length, from_u16-to_u16}
use aeordb.Format.Compression
use aeordb.Format.EntryType
use aeordb.Format.EntryHeader.{EntryHeader, IsValid, serialize, deserialize, read_exact}

read_exact-append : (xs ys : Bytes) (n : ℕ) → length xs ≡ n → read_exact n (xs ++ ys) ≡ ok (xs, ys)
unfolding read_exact
read_exact-append xs ys n e =
    rw (← e) (ground (arith, length-append xs ys, take-append xs ys, drop-append xs ys))

-- The fixed part of a serialized header.
fixed : EntryHeader → Bytes
unfolding serialize
fixed h = serialize (record h { hash = [] })

u16_small : (a : HashAlgorithm) → HashAlgorithm.to_u16 a < 256 ^ 2
unfolding HashAlgorithm.to_u16
u16_small a = ground arith

-- A header that is in range is read back from its bytes, and what follows it is left unread.
pub deserialize-serialize :
    (h : EntryHeader) (rest : Bytes) → IsValid h → deserialize (serialize h ++ rest) ≡ ok (h, rest)
unfolding deserialize serialize fixed
deserialize-serialize h rest v = rw (
  read_exact-append (fixed h) (h.hash ++ rest) 31 refl,
  from_le_bytes-to_le_bytes 2 (HashAlgorithm.to_u16 h.hash_algo) (u16_small h.hash_algo),
  EntryType.from_u8-to_u8 h.entry_type,
  from_u16-to_u16 h.hash_algo,
  Compression.from_u8-to_u8 h.compression_algo,
  read_exact-append h.hash rest (hash_length h.hash_algo) v.hash_fits,
  from_le_bytes-to_le_bytes 4 h.key_length v.key_length_fits,
  from_le_bytes-to_le_bytes 4 h.value_length v.value_length_fits,
  from_le_bytes-to_le_bytes 8 h.timestamp v.timestamp_fits,
  from_le_bytes-to_le_bytes 4 h.total_length v.total_length_fits,
)
