-- ===== src/Kv/Entry.antt =====
-- `KVEntry` of aeordb-lib/src/engine/kv_store.rs: where the entry of a hash stands in the log.
use Prim.Native.Nat.{bit_and}
use aeordb.Prelude.{ℕ, ◌<◌, ◌^◌, ◌≡◌, Bool, not, length, ◌==◌}
use aeordb.Bytes.{Bytes}

abbrev pub kv_flag_pending : ℕ
kv_flag_pending = 0x10

abbrev pub kv_flag_deleted : ℕ
kv_flag_deleted = 0x20

pub record KvEntry : Type 0 where
  pub type_flags : ℕ
  pub hash : Bytes
  pub offset : ℕ
  pub total_length : ℕ

unfoldable pub entry_type : KvEntry → ℕ
entry_type e = bit_and e.type_flags 0x0F

unfoldable pub flags : KvEntry → ℕ
flags e = bit_and e.type_flags 0xF0

unfoldable pub is_pending : KvEntry → Bool
is_pending e = not (bit_and e.type_flags kv_flag_pending == 0)

unfoldable pub is_deleted : KvEntry → Bool
is_deleted e = not (bit_and e.type_flags kv_flag_deleted == 0)

-- The ranges of the field types, and a hash of the length that the database uses.
pub record IsValid (hash_length : ℕ) (e : KvEntry) : Type 0 where
  pub type_flags_fits : e.type_flags < 2 ^ 8
  pub hash_fits : length e.hash ≡ hash_length
  pub offset_fits : e.offset < 2 ^ 64
  pub total_length_fits : e.total_length < 2 ^ 32
