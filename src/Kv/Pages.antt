-- ===== src/Kv/Pages.antt =====
-- aeordb-lib/src/engine/kv_pages.rs: the bucket pages of the KV file. The CRC is a parameter, and
-- feeding it in pieces is the CRC of their concatenation.
pub mod Lookup
pub mod Upsert
pub mod RoundTrip
use Prim.Native.Nat.{bit_and}
use aeordb.Prelude.{
  ℕ, zero, suc, ◌+◌, ◌-◌, ◌*◌, ◌%◌, ◌^◌, min, Bool, true, false, not, ◌&&◌, Option, none, some,
  List, [], ◌∷◌, ◌++◌, length, take, drop, replicate, ltb, ◌==◌, if◌then◌else◌,
}
use aeordb.Bytes.{Bytes, to_le_bytes, from_le_bytes, byte_at, slice, bytes_eq, fitted_hash}
use aeordb.Errors.{EngineError, corrupt_entry, EngineResult, ok, err, ◌>>=◌}
use aeordb.Kv.Entry.{KvEntry, kv_flag_deleted, is_deleted}

abbrev pub max_entries_per_page : ℕ
max_entries_per_page = 32

abbrev pub page_magic : ℕ
page_magic = 0xAE0DB905

abbrev pub page_header_size : ℕ
page_header_size = 4 + 4 + 2

abbrev pub entry_size : ℕ → ℕ
entry_size hash_length = hash_length + 1 + 8 + 4

abbrev pub page_size : ℕ → ℕ
page_size hash_length = page_header_size + max_entries_per_page * entry_size hash_length

unfoldable pub is_empty_page : Bytes → Bool
is_empty_page bytes =
    if ltb (length bytes) page_header_size
    then false
    else (from_le_bytes (slice bytes 0 4) == 0) && (from_le_bytes (slice bytes 8 2) == 0)

unfoldable pub page_crc : (Bytes → ℕ) → Bytes → ℕ
page_crc crc32 bytes = crc32 (take 4 bytes ++ (replicate 4 0 ++ drop 8 bytes))

unfoldable pub validated_entry_count : (Bytes → ℕ) → Bytes → ℕ → EngineResult (Option ℕ)
validated_entry_count crc32 bytes hash_length =
    let count = from_le_bytes (slice bytes 8 2) in
    let required = page_header_size + count * entry_size hash_length in
    if ltb (length bytes) page_header_size
    then err corrupt_entry
    else if is_empty_page bytes
    then ok none
    else if not (from_le_bytes (slice bytes 0 4) == page_magic)
    then err corrupt_entry
    else if not (from_le_bytes (slice bytes 4 4) == page_crc crc32 bytes)
    then err corrupt_entry
    else if ltb max_entries_per_page count
    then err corrupt_entry
    else if ltb (length bytes) required
    then err corrupt_entry
    else ok (some count)

unfoldable pub bucket_page_offset : ℕ → ℕ → ℕ
bucket_page_offset bucket_index hash_length = bucket_index * page_size hash_length

unfoldable pub entry_bytes : ℕ → KvEntry → Bytes
entry_bytes hash_length entry =
    fitted_hash hash_length entry.hash
    ++ (entry.type_flags ∷ (to_le_bytes 8 entry.offset ++ to_le_bytes 4 entry.total_length))

unfoldable pub entries_bytes : ℕ → List KvEntry → Bytes
entries_bytes hash_length [] = []
entries_bytes hash_length (entry ∷ entries) =
    entry_bytes hash_length entry ++ entries_bytes hash_length entries

-- The page behind its CRC: the count, the entries and zeros up to the size of the page.
unfoldable pub page_body : List KvEntry → ℕ → Bytes
page_body entries hash_length =
    let count = min (length entries) max_entries_per_page in
    to_le_bytes 2 count
    ++ (entries_bytes hash_length (take count entries)
        ++ replicate ((max_entries_per_page - count) * entry_size hash_length) 0)

unfoldable pub serialize_page : (Bytes → ℕ) → List KvEntry → ℕ → Bytes
serialize_page crc32 entries hash_length =
    let body = page_body entries hash_length in
    let crc = crc32 (to_le_bytes 4 page_magic ++ (replicate 4 0 ++ body)) in
    to_le_bytes 4 page_magic ++ (to_le_bytes 4 crc ++ body)

unfoldable pub read_entry : ℕ → Bytes → ℕ → KvEntry
read_entry hash_length bytes offset = record {
  type_flags = byte_at bytes (offset + hash_length);
  hash = slice bytes offset hash_length;
  offset = from_le_bytes (slice bytes (offset + hash_length + 1) 8);
  total_length = from_le_bytes (slice bytes (offset + hash_length + 9) 4);
}

-- The loop of `deserialize_page`, with `n` rounds left from the entry `i` on.
unfoldable pub read_entries : ℕ → Bytes → ℕ → ℕ → List KvEntry
read_entries hash_length bytes zero i = []
read_entries hash_length bytes (suc n) i =
    read_entry hash_length bytes (page_header_size + i * entry_size hash_length)
    ∷ read_entries hash_length bytes n (suc i)

-- `let Some(count) = validated_entry_count(data, hash_length)? else { return Ok(empty) };`
unfoldable pub with_count {ℓ} : {A : Type ℓ} → A → (ℕ → A) → Option ℕ → EngineResult A
with_count empty f none = ok empty
with_count empty f (some count) = ok (f count)

unfoldable pub deserialize_page : (Bytes → ℕ) → Bytes → ℕ → EngineResult (List KvEntry)
unfolding with_count
deserialize_page crc32 bytes hash_length =
    validated_entry_count crc32 bytes hash_length
    >>= with_count [] (λ count. read_entries hash_length bytes count 0)

-- The loop of `find_entry_in_page_data`.
unfoldable pub find_entry_from : Bytes → ℕ → Bytes → Bool → ℕ → ℕ → Option KvEntry
find_entry_from bytes hash_length hash include_deleted zero i = none
find_entry_from bytes hash_length hash include_deleted (suc n) i =
    let later = find_entry_from bytes hash_length hash include_deleted n (suc i) in
    let offset = page_header_size + i * entry_size hash_length in
    let type_flags = byte_at bytes (offset + hash_length) in
    if not (bytes_eq (slice bytes offset hash_length) hash)
    then later
    else if not include_deleted && not (bit_and type_flags kv_flag_deleted == 0)
    then none
    else some (read_entry hash_length bytes offset)

unfoldable pub find_entry_in_page_data :
    (Bytes → ℕ) → Bytes → ℕ → Bytes → Bool → EngineResult (Option KvEntry)
unfolding with_count
find_entry_in_page_data crc32 bytes hash_length hash include_deleted =
    validated_entry_count crc32 bytes hash_length
    >>= with_count none (λ count. find_entry_from bytes hash_length hash include_deleted count 0)

-- `counts[i] += 1`
unfoldable pub increment_at : ℕ → List ℕ → List ℕ
increment_at i [] = []
increment_at zero (n ∷ counts) = suc n ∷ counts
increment_at (suc i) (n ∷ counts) = n ∷ increment_at i counts

-- The loop of `live_type_counts_in_page`.
unfoldable pub count_types_from : Bytes → ℕ → ℕ → ℕ → List ℕ → List ℕ
count_types_from bytes hash_length zero i counts = counts
count_types_from bytes hash_length (suc n) i counts =
    let offset = page_header_size + i * entry_size hash_length in
    let type_flags = byte_at bytes (offset + hash_length) in
    let counts' =
      if bit_and type_flags kv_flag_deleted == 0
      then increment_at (bit_and type_flags 0x0F) counts
      else counts in
    count_types_from bytes hash_length n (suc i) counts'

unfoldable pub live_type_counts_in_page : (Bytes → ℕ) → Bytes → ℕ → EngineResult (List ℕ)
unfolding with_count
live_type_counts_in_page crc32 bytes hash_length =
    validated_entry_count crc32 bytes hash_length
    >>= with_count (replicate 16 0)
        (λ count. count_types_from bytes hash_length count 0 (replicate 16 0))

unfoldable pub find_in_page : List KvEntry → Bytes → Option KvEntry
find_in_page [] hash = none
find_in_page (entry ∷ entries) hash =
    if bytes_eq entry.hash hash && not (is_deleted entry)
    then some entry
    else find_in_page entries hash

-- `if let Some(existing) = entries.iter_mut().find(...) { *existing = entry; }`
unfoldable pub replace_first : KvEntry → List KvEntry → Option (List KvEntry)
replace_first entry [] = none
replace_first entry (e ∷ entries) =
    let later : Option (List KvEntry) = elim (replace_first entry entries) [
      | none ↦ none
      | some es ↦ some (e ∷ es)
    ] in
    if bytes_eq e.hash entry.hash then some (entry ∷ entries) else later

unfoldable pub upsert_in_page : List KvEntry → KvEntry → Bool × List KvEntry
upsert_in_page entries entry = elim (replace_first entry entries) [
  | some entries' ↦ (true, entries')
  | none ↦
      if ltb (length entries) max_entries_per_page
      then (true, entries ++ (entry ∷ []))
      else (false, entries)
]
