-- ===== src/Kv/Pages/Lookup.antt =====
-- About the functions of aeordb-lib/src/engine/kv_pages.rs that read one entry, or the counts,
-- from the bytes of a page.
use Prim.Native.Nat.{bit_and}
use aeordb.Prelude.{
  ℕ, zero, suc, ◌+◌, ◌*◌, ◌<◌, ◌≡◌, refl, ap, Bool, not, ◌&&◌, Option, none, some, List, [], ◌∷◌,
  ◌==◌, if◌then◌else◌, arith, get_or, length, keep, replicate,
}
use aeordb.Bytes.{Bytes, bytes_eq}
use aeordb.Errors.{EngineResult, ok, err, ◌>>=◌}
use aeordb.Kv.Entry.{KvEntry, is_deleted, entry_type}
use aeordb.Kv.Pages.{
  validated_entry_count, deserialize_page, read_entries, read_entry, find_entry_from,
  find_entry_in_page_data, increment_at, count_types_from, live_type_counts_in_page, with_count,
  page_header_size, entry_size,
}

-- The first entry of the hash, or nothing if it is deleted and deleted ones are not wanted.
unfoldable pub lookup : Bytes → Bool → List KvEntry → Option KvEntry
lookup hash include_deleted [] = none
lookup hash include_deleted (e ∷ es) =
    if not (bytes_eq e.hash hash)
    then lookup hash include_deleted es
    else if not include_deleted && is_deleted e
    then none
    else some e

find_entry_from-read_entries :
    (bytes : Bytes) (hl : ℕ) (hash : Bytes) (include_deleted : Bool) (n i : ℕ)
    → find_entry_from bytes hl hash include_deleted n i
      ≡ lookup hash include_deleted (read_entries hl bytes n i)
unfolding find_entry_from lookup read_entries read_entry is_deleted
find_entry_from-read_entries bytes hl hash include_deleted zero i = refl
find_entry_from-read_entries bytes hl hash include_deleted (suc n) i =
    rw (find_entry_from-read_entries bytes hl hash include_deleted n (suc i)) refl

-- Looking an entry up in the bytes of a page, sound or corrupt, is the lookup in the entries that
-- the page is read as, with the same error.
pub find_entry_in_page_data-deserialize_page :
    (crc32 : Bytes → ℕ) (bytes : Bytes) (hl : ℕ) (hash : Bytes) (include_deleted : Bool)
    → find_entry_in_page_data crc32 bytes hl hash include_deleted
      ≡ (deserialize_page crc32 bytes hl >>= λ es. ok (lookup hash include_deleted es))
unfolding find_entry_in_page_data deserialize_page lookup with_count
find_entry_in_page_data-deserialize_page crc32 bytes hl hash include_deleted =
    go (validated_entry_count crc32 bytes hl)
  where
    go :
        (r : EngineResult (Option ℕ))
        → (r >>= with_count none (λ n. find_entry_from bytes hl hash include_deleted n 0)) ≡ (
            (r >>= with_count [] (λ n. read_entries hl bytes n 0)) >>= λ es.
            ok (lookup hash include_deleted es))
    go (err e) = refl
    go (ok none) = refl
    go (ok (some n)) =
        ap (λ o. ok o) (find_entry_from-read_entries bytes hl hash include_deleted n 0)

unfoldable pub live_of_type : ℕ → KvEntry → Bool
live_of_type t e = not (is_deleted e) && (entry_type e == t)

get_or-increment_at :
    (i t : ℕ) (counts : List ℕ)
    → t < length counts
    → get_or (increment_at i counts) t 0
      ≡ (if i == t then suc (get_or counts t 0) else get_or counts t 0)
unfolding increment_at
get_or-increment_at i t [] h = omega arith
get_or-increment_at zero zero (n ∷ counts) h = refl
get_or-increment_at zero (suc t) (n ∷ counts) h = ground arith
get_or-increment_at (suc i) zero (n ∷ counts) h = ground arith
get_or-increment_at (suc i) (suc t) (n ∷ counts) h = ground (arith, get_or-increment_at i t counts)

length-increment_at : (i : ℕ) (counts : List ℕ) → length (increment_at i counts) ≡ length counts
unfolding increment_at
length-increment_at i [] = refl
length-increment_at zero (n ∷ counts) = refl
length-increment_at (suc i) (n ∷ counts) = ap suc (length-increment_at i counts)

get_or-replicate : (n t : ℕ) → get_or {A = ℕ} (replicate n 0) t 0 ≡ 0
get_or-replicate zero t = refl
get_or-replicate (suc n) zero = refl
get_or-replicate (suc n) (suc t) = get_or-replicate n t

count_types_from-read_entries :
    (bytes : Bytes) (hl t n i : ℕ) (counts : List ℕ)
    → t < length counts
    → get_or (count_types_from bytes hl n i counts) t 0
      ≡ get_or counts t 0 + length (keep (live_of_type t) (read_entries hl bytes n i))
unfolding count_types_from read_entries read_entry live_of_type is_deleted entry_type keep
count_types_from-read_entries bytes hl t zero i counts h = omega arith
count_types_from-read_entries bytes hl t (suc n) i counts h =
    let e = read_entry hl bytes (page_header_size + i * entry_size hl) in
    let bumped = increment_at (bit_and e.type_flags 0x0F) counts in
    ground (
      arith,
      count_types_from-read_entries bytes hl t n (suc i) counts,
      count_types_from-read_entries bytes hl t n (suc i) bumped,
      get_or-increment_at (bit_and e.type_flags 0x0F) t counts,
      length-increment_at (bit_and e.type_flags 0x0F) counts,
    )

-- The count of a type.
abbrev pub count_at : EngineResult (List ℕ) → ℕ → EngineResult ℕ
count_at counts t = counts >>= λ l. ok (get_or l t 0)

-- Each of the 16 counts is the number of entries of that type, among those the page is read as,
-- that are not deleted; a page that cannot be read gives the same error.
pub live_type_counts_in_page-deserialize_page :
    (crc32 : Bytes → ℕ) (bytes : Bytes) (hl t : ℕ)
    → t < 16
    → count_at (live_type_counts_in_page crc32 bytes hl) t
      ≡ (deserialize_page crc32 bytes hl >>= λ es. ok (length (keep (live_of_type t) es)))
unfolding live_type_counts_in_page deserialize_page with_count keep
live_type_counts_in_page-deserialize_page crc32 bytes hl t h =
    go (validated_entry_count crc32 bytes hl)
  where
    go :
        (r : EngineResult (Option ℕ))
        → count_at
            (r
              >>= with_count (replicate 16 0) (λ n. count_types_from bytes hl n 0 (replicate 16 0)))
            t
          ≡ ((r >>= with_count [] (λ n. read_entries hl bytes n 0)) >>= λ es.
              ok (length (keep (live_of_type t) es)))
    go (err e) = refl
    go (ok none) = ap (λ k. ok k) (get_or-replicate 16 t)
    go (ok (some n)) =
        let whole : get_or (count_types_from bytes hl n 0 (replicate 16 0)) t 0
            ≡ length (keep (live_of_type t) (read_entries hl bytes n 0)) =
          omega (
            arith,
            count_types_from-read_entries bytes hl t n 0 (replicate 16 0) h,
            get_or-replicate 16 t,
          ) in
        ap (λ k. ok k) whole
