-- ===== src/Kv/Stages.antt =====
-- aeordb-lib/src/engine/kv_stages.rs, and `stage_for_count` of kv_pages.rs: how large the KV block
-- is at each stage of its growth.
pub mod Capacity
use aeordb.Prelude.{
  ℕ, suc, ◌+◌, ◌-◌, ◌*◌, ◌/◌, ◌^◌, ◌≤◌, ◌<◌, ◌≡◌, min, List, [], ◌∷◌, length, get_or, Bool, ltb,
  if◌then◌else◌, arith,
}
use aeordb.Kv.Pages.{page_size, max_entries_per_page}

abbrev pub kv_stage_sizes : List ℕ
kv_stage_sizes =
    64 * 1024
    ∷ 512 * 1024
    ∷ 4 * 1024 * 1024
    ∷ 32 * 1024 * 1024
    ∷ 128 * 1024 * 1024
    ∷ 512 * 1024 * 1024
    ∷ 1024 * 1024 * 1024
    ∷ 2 * 1024 * 1024 * 1024
    ∷ 4 * 1024 * 1024 * 1024
    ∷ 8 * 1024 * 1024 * 1024
    ∷ []

unfoldable pub buckets_for_block : ℕ → ℕ → ℕ
buckets_for_block block_size page_bytes = block_size / page_bytes

-- `saturating_mul` of `u64`.
abbrev saturating_mul : ℕ → ℕ → ℕ
saturating_mul a b = min (a * b) (2 ^ 64 - 1)

unfoldable pub stage_block_size : ℕ → ℕ
stage_block_size stage =
    let last = length kv_stage_sizes - 1 in
    if ltb stage (length kv_stage_sizes)
    then get_or kv_stage_sizes stage 0
    else saturating_mul (get_or kv_stage_sizes last 0) (2 ^ min (stage - last) 53)

unfoldable pub stage_params : ℕ → ℕ → ℕ × ℕ
stage_params stage page_bytes =
    (stage_block_size stage, buckets_for_block (stage_block_size stage) page_bytes)

-- The loop of `stage_for_count` over the sizes from the index `stage` on.
unfoldable pub stage_from : List ℕ → ℕ → ℕ → ℕ → ℕ
stage_from [] stage entry_count hash_length = length kv_stage_sizes - 1
stage_from (block_size ∷ sizes) stage entry_count hash_length =
    let later = stage_from sizes (suc stage) entry_count hash_length in
    let buckets = buckets_for_block block_size (page_size hash_length) in
    if ltb entry_count (buckets * max_entries_per_page) then stage else later

unfoldable pub stage_for_count : ℕ → ℕ → ℕ
stage_for_count entry_count hash_length = stage_from kv_stage_sizes 0 entry_count hash_length
