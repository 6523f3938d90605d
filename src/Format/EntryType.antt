-- ===== src/Format/EntryType.antt =====
-- aeordb-lib/src/engine/entry_type.rs: the kinds of entries, their bytes in the log, and their bytes
-- in the key index (the KV_TYPE constants of kv_store.rs).
use aeordb.Prelude.{ℕ, ◌<◌, ◌≡◌, arith, ◌==◌, if◌then◌else◌}
use aeordb.Errors.{EngineResult, ok, err, invalid_entry_type}

pub data EntryType : Type 0 where
  chunk file_record directory_index deletion_record snapshot void fork symlink : EntryType

unfoldable pub to_u8 : EntryType → ℕ
to_u8 chunk = 1
to_u8 file_record = 2
to_u8 directory_index = 3
to_u8 deletion_record = 4
to_u8 snapshot = 5
to_u8 void = 6
to_u8 fork = 7
to_u8 symlink = 8

unfoldable pub from_u8 : ℕ → EngineResult EntryType
from_u8 value =
    if value == 1
    then ok chunk
    else if value == 2
    then ok file_record
    else if value == 3
    then ok directory_index
    else if value == 4
    then ok deletion_record
    else if value == 5
    then ok snapshot
    else if value == 6
    then ok void
    else if value == 7
    then ok fork
    else if value == 8
    then ok symlink
    else err (invalid_entry_type value)

-- The `KV_TYPE_*` constants: four bits.
unfoldable pub to_kv_type : EntryType → ℕ
to_kv_type chunk = 0
to_kv_type file_record = 1
to_kv_type directory_index = 2
to_kv_type deletion_record = 3
to_kv_type snapshot = 4
to_kv_type void = 5
to_kv_type fork = 7
to_kv_type symlink = 9

pub from_u8-to_u8 : (t : EntryType) → from_u8 (to_u8 t) ≡ ok t
unfolding from_u8 to_u8
from_u8-to_u8 t = ground arith

pub to_u8-from_u8 : (n : ℕ) (t : EntryType) → from_u8 n ≡ ok t → to_u8 t ≡ n
unfolding from_u8 to_u8
to_u8-from_u8 n t h = ground arith

-- Different kinds have different type bits in the index, and all fit the low four bits.
pub to_kv_type-injective : (s t : EntryType) → to_kv_type s ≡ to_kv_type t → s ≡ t
unfolding to_kv_type
to_kv_type-injective s t h = ground arith

pub to_kv_type-lt : (t : EntryType) → to_kv_type t < 16
unfolding to_kv_type
to_kv_type-lt t = ground arith
