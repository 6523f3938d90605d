-- ===== src/Merge/Types.antt =====
-- The records of aeordb-lib/src/engine/merge.rs, with `FileRecord` of file_record.rs,
-- `SymlinkRecord` of symlink_record.rs and the part of `TreeDiff` of tree_walker.rs that merging
-- reads.
use aeordb.Prelude.{ℕ, Bool, true, false, Option, none, some, List, [], ◌∷◌, not, if◌then◌else◌}
use aeordb.Prelude.Int.{ℤ, ltb_ℤ}
use aeordb.Bytes.{Bytes}
use aeordb.Strings.{StringMap, bytes_lt}

pub record FileRecord : Type 0 where
  pub path : Bytes
  pub content_type : Option Bytes
  pub total_size : ℕ
  pub created_at : ℤ
  pub updated_at : ℤ
  pub metadata : Bytes
  pub content_hash : Bytes
  pub chunk_hashes : List Bytes

pub record SymlinkRecord : Type 0 where
  pub path : Bytes
  pub target : Bytes
  pub created_at : ℤ
  pub updated_at : ℤ

pub record TreeDiff : Type 0 where
  pub added : StringMap (Bytes × FileRecord)
  pub modified : StringMap (Bytes × FileRecord)
  pub deleted : List Bytes
  pub symlinks_added : StringMap (Bytes × SymlinkRecord)
  pub symlinks_modified : StringMap (Bytes × SymlinkRecord)
  pub symlinks_deleted : List Bytes

pub data ConflictType : Type 0 where
  concurrent_modify modify_delete concurrent_create : ConflictType

pub record ConflictVersion : Type 0 where
  pub hash : Bytes
  pub virtual_time : ℕ
  pub node_id : ℕ
  pub size : ℕ
  pub content_type : Option Bytes

pub record ConflictEntry : Type 0 where
  pub path : Bytes
  pub conflict_type : ConflictType
  pub winner : ConflictVersion
  pub loser : ConflictVersion

pub data MergeOp : Type 0 where
  add_file : Bytes → Bytes → FileRecord → MergeOp
  delete_file : Bytes → MergeOp
  add_symlink : Bytes → Bytes → SymlinkRecord → MergeOp
  delete_symlink : Bytes → MergeOp

pub record MergeResult : Type 0 where
  pub operations : List MergeOp
  pub conflicts : List ConflictEntry

-- What one path adds to the two lists.
abbrev pub nothing : MergeResult
nothing = record { operations = []; conflicts = [] }

abbrev pub operation : MergeOp → MergeResult
operation op = record { operations = op ∷ []; conflicts = [] }

abbrev pub conflict : ConflictEntry → MergeResult
conflict entry = record { operations = []; conflicts = entry ∷ [] }

-- `Option::or`
abbrev pub or {ℓ} : {A : Type ℓ} → Option A → Option A → Option A
or none y = y
or (some x) y = some x

-- `match local_time.cmp(&remote_time)`, and `local_hash >= remote_hash` where the times agree.
unfoldable pub local_wins : ℤ → Bytes → ℤ → Bytes → Bool
local_wins local_time local_hash remote_time remote_hash =
    if ltb_ℤ remote_time local_time
    then true
    else if ltb_ℤ local_time remote_time
    then false
    else not (bytes_lt local_hash remote_hash)

abbrev pub no_version : ConflictVersion
no_version = record { hash = []; virtual_time = 0; node_id = 0; size = 0; content_type = none }

-- `if a_is_add || b_is_add { ConcurrentCreate } else { ConcurrentModify }`
abbrev pub create_or_modify : Bool → Bool → ConflictType
create_or_modify true remote_is_add = concurrent_create
create_or_modify false true = concurrent_create
create_or_modify false false = concurrent_modify
