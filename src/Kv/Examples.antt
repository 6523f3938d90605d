-- ===== src/Kv/Examples.antt =====
-- Pages of two entries, one of them deleted, and the stages at BLAKE3 hashes.
use aeordb.Prelude.{ℕ, ◌+◌, ◌≤◌, ◌<◌, ◌≡◌, refl, true, false, List, [], ◌∷◌, arith}
use aeordb.Bytes.{Bytes, bytes_eq}
use aeordb.Bytes.Checksum.{byte_sum, byte_sum-lt}
use aeordb.Errors.{ok, ◌>>=◌}
use aeordb.Kv.Entry.{KvEntry}
use aeordb.Kv.Pages.{
  serialize_page, deserialize_page, find_entry_in_page_data, upsert_in_page, page_size,
  bucket_page_offset,
}
use aeordb.Kv.Pages.RoundTrip.{deserialize_page-serialize_page}
use aeordb.Kv.Pages.Lookup.{lookup, find_entry_in_page_data-deserialize_page}
use aeordb.Kv.Pages.Upsert.{found_after, IsPage, lookup-upsert_in_page, upsert_in_page-IsPage}
use aeordb.Kv.Stages.{stage_for_count, stage_params, buckets_for_block, stage_block_size}
use aeordb.Kv.Stages.Capacity.{IsStageFor, stage_for_count-IsStageFor, bucket_page_offset_lem}

abbrev live : KvEntry
live = record { type_flags = 1; hash = 7 ∷ 8 ∷ []; offset = 300; total_length = 512 }

abbrev deleted : KvEntry
deleted = record { type_flags = 0x24; hash = 9 ∷ 9 ∷ []; offset = 900; total_length = 64 }

abbrev newer : KvEntry
newer = record { type_flags = 1; hash = 7 ∷ 8 ∷ []; offset = 4000; total_length = 100 }

abbrev entries : List KvEntry
entries = live ∷ deleted ∷ []

abbrev page : Bytes
page = serialize_page byte_sum entries 2

deserialize_page-serialize_page_example : deserialize_page byte_sum page 2 ≡ ok entries
deserialize_page-serialize_page_example =
    deserialize_page-serialize_page byte_sum byte_sum-lt entries 2 (omega arith)

find_entry_in_page_data-deserialize_page_example :
    find_entry_in_page_data byte_sum page 2 (9 ∷ 9 ∷ []) false
    ≡ (deserialize_page byte_sum page 2 >>= λ es. ok (lookup (9 ∷ 9 ∷ []) false es))
find_entry_in_page_data-deserialize_page_example =
    find_entry_in_page_data-deserialize_page byte_sum page 2 (9 ∷ 9 ∷ []) false

lookup-upsert_in_page_example :
    lookup (7 ∷ 8 ∷ []) true (upsert_in_page entries newer).1
    ≡ found_after (upsert_in_page entries newer).0 newer (7 ∷ 8 ∷ []) entries
lookup-upsert_in_page_example = lookup-upsert_in_page newer entries (7 ∷ 8 ∷ [])

entries-IsPage : IsPage entries
unfolding bytes_eq
entries-IsPage = record { distinct = ((refl, tt), (tt, tt)); fits = omega arith }

upsert_in_page-IsPage_example : IsPage (upsert_in_page entries newer).1
upsert_in_page-IsPage_example = upsert_in_page-IsPage newer entries entries-IsPage

stage_for_count-IsStageFor_example : IsStageFor 2000 32 (stage_for_count 2000 32)
stage_for_count-IsStageFor_example = stage_for_count-IsStageFor 2000 32

bucket_page_offset_lem_example :
    (bucket_page_offset 40 32 + page_size 32 ≤ (stage_params 0 (page_size 32)).0)
    × ((j : ℕ) → j < 40 → bucket_page_offset j 32 + page_size 32 ≤ bucket_page_offset 40 32)
unfolding stage_params buckets_for_block stage_block_size
bucket_page_offset_lem_example = bucket_page_offset_lem 0 32 40 (omega arith)
