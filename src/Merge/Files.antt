-- ===== src/Merge/Files.antt =====
-- `merge_files`, `resolve_file_conflict` and `make_modify_delete_conflict` of
-- aeordb-lib/src/engine/merge.rs.
use aeordb.Prelude.{
  Bool, true, false, Option, none, some, List, [], ◌∷◌, ◌++◌, if◌then◌else◌, is_some,
}
use aeordb.Prelude.Int.{pos_part}
use aeordb.Bytes.{Bytes, bytes_eq}
use aeordb.Strings.{contains, insert_all, get, keys}
use aeordb.Merge.Types.{
  FileRecord, TreeDiff, ConflictVersion, ConflictEntry, MergeResult, nothing, operation, conflict,
  or, local_wins, no_version, modify_delete, create_or_modify, add_file, delete_file,
}

abbrev pub FileChange : Type 0
FileChange = Bytes × FileRecord

-- `updated_at.max(0) as u64` is the positive part.
unfoldable pub file_version : FileChange → ConflictVersion
file_version (hash, record_of) = record {
  hash = hash;
  virtual_time = pos_part record_of.updated_at;
  node_id = 0;
  size = record_of.total_size;
  content_type = record_of.content_type;
}

unfoldable pub make_modify_delete_conflict : Bytes → FileChange → ConflictEntry
unfolding file_version
make_modify_delete_conflict path winner = record {
  path = path;
  conflict_type = modify_delete;
  winner = file_version winner;
  loser = no_version;
}

unfoldable pub resolve_file_conflict : Bytes → FileChange → Bool → FileChange → Bool → MergeResult
unfolding file_version
resolve_file_conflict path (lh, lr) local_is_add (rh, rr) remote_is_add =
    let kind = create_or_modify local_is_add remote_is_add in
    if local_wins lr.updated_at lh rr.updated_at rh
    then conflict (record {
      path = path;
      conflict_type = kind;
      winner = file_version (lh, lr);
      loser = file_version (rh, rr);
    })
    else record {
      operations = add_file path rh rr ∷ [];
      conflicts =
          record {
            path = path;
            conflict_type = kind;
            winner = file_version (rh, rr);
            loser = file_version (lh, lr);
          }
          ∷ [];
    }

-- The `match` of `merge_files`: the two changes, whether each is an addition, and the deletions.
unfoldable pub merge_file_cases :
    Bytes → Bool → Bool → Option FileChange → Bool → Option FileChange → Bool → MergeResult
unfolding resolve_file_conflict make_modify_delete_conflict
merge_file_cases path la ra none false (some (rh, rr)) false = operation (add_file path rh rr)
merge_file_cases path la ra (some l) false none false = nothing
merge_file_cases path la ra (some (lh, lr)) false (some (rh, rr)) false =
    if bytes_eq lh rh then nothing else resolve_file_conflict path (lh, lr) la (rh, rr) ra
merge_file_cases path la ra none true (some (rh, rr)) false = record {
  operations = add_file path rh rr ∷ [];
  conflicts = make_modify_delete_conflict path (rh, rr) ∷ [];
}
merge_file_cases path la ra (some l) false none true = conflict (make_modify_delete_conflict path l)
merge_file_cases path la ra none false none true = operation (delete_file path)
merge_file_cases path la ra none true none false = nothing
merge_file_cases path la ra none true none true = nothing
merge_file_cases path la ra l ld r rd = nothing

abbrev pub file_change : TreeDiff → Bytes → Option FileChange
file_change diff path = or (get diff.added path) (get diff.modified path)

unfoldable pub merge_file : TreeDiff → TreeDiff → Bytes → MergeResult
merge_file local remote path =
    merge_file_cases path (is_some (get local.added path)) (is_some (get remote.added path))
      (file_change local path) (contains local.deleted path) (file_change remote path)
      (contains remote.deleted path)

unfoldable pub all_file_paths : TreeDiff → TreeDiff → List Bytes
all_file_paths local remote = insert_all remote.deleted (
    insert_all (keys remote.modified) (
      insert_all (keys remote.added) (
        insert_all local.deleted
          (insert_all (keys local.modified) (insert_all (keys local.added) [])))))

-- The loop over the paths: each adds to the ends of the two lists.
unfoldable pub merge_paths : (Bytes → MergeResult) → List Bytes → MergeResult → MergeResult
merge_paths step [] result = result
merge_paths step (path ∷ paths) result = merge_paths step paths (record {
  operations = result.operations ++ (step path).operations;
  conflicts = result.conflicts ++ (step path).conflicts;
})

unfoldable pub merge_files : TreeDiff → TreeDiff → MergeResult → MergeResult
merge_files local remote = merge_paths (merge_file local remote) (all_file_paths local remote)
