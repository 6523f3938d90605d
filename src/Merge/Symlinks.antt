-- ===== src/Merge/Symlinks.antt =====
-- `merge_symlinks` of aeordb-lib/src/engine/merge.rs.
use aeordb.Prelude.{Bool, true, false, Option, none, some, List, [], ◌∷◌, if◌then◌else◌, is_some}
use aeordb.Prelude.Int.{pos_part}
use aeordb.Bytes.{Bytes, bytes_eq}
use aeordb.Strings.{contains, insert_all, get, keys}
use aeordb.Merge.Types.{
  SymlinkRecord, TreeDiff, ConflictVersion, ConflictEntry, MergeResult, nothing, operation,
  conflict, or, local_wins, no_version, modify_delete, create_or_modify, add_symlink,
  delete_symlink,
}
use aeordb.Merge.Files.{merge_paths}

abbrev pub SymlinkChange : Type 0
SymlinkChange = Bytes × SymlinkRecord

unfoldable pub symlink_version : SymlinkChange → ConflictVersion
symlink_version (hash, record_of) = record {
  hash = hash;
  virtual_time = pos_part record_of.updated_at;
  node_id = 0;
  size = 0;
  content_type = none;
}

unfoldable pub modify_delete_conflict : Bytes → SymlinkChange → ConflictEntry
unfolding symlink_version
modify_delete_conflict path winner = record {
  path = path;
  conflict_type = modify_delete;
  winner = symlink_version winner;
  loser = no_version;
}

-- The arm of the `match` for two changes to different targets.
unfoldable pub resolve_symlink_conflict :
    Bytes → SymlinkChange → Bool → SymlinkChange → Bool → MergeResult
unfolding symlink_version
resolve_symlink_conflict path (lh, lr) local_is_add (rh, rr) remote_is_add =
    let kind = create_or_modify local_is_add remote_is_add in
    if local_wins lr.updated_at lh rr.updated_at rh
    then conflict (record {
      path = path;
      conflict_type = kind;
      winner = symlink_version (lh, lr);
      loser = symlink_version (rh, rr);
    })
    else record {
      operations = add_symlink path rh rr ∷ [];
      conflicts =
          record {
            path = path;
            conflict_type = kind;
            winner = symlink_version (rh, rr);
            loser = symlink_version (lh, lr);
          }
          ∷ [];
    }

unfoldable pub merge_symlink_cases :
    Bytes → Bool → Bool → Option SymlinkChange → Bool → Option SymlinkChange → Bool → MergeResult
unfolding resolve_symlink_conflict modify_delete_conflict
merge_symlink_cases path la ra none false (some (rh, rr)) false = operation (add_symlink path rh rr)
merge_symlink_cases path la ra (some l) false none false = nothing
merge_symlink_cases path la ra (some (lh, lr)) false (some (rh, rr)) false =
    if bytes_eq lr.target rr.target
    then nothing
    else resolve_symlink_conflict path (lh, lr) la (rh, rr) ra
merge_symlink_cases path la ra none true (some (rh, rr)) false = record {
  operations = add_symlink path rh rr ∷ [];
  conflicts = modify_delete_conflict path (rh, rr) ∷ [];
}
merge_symlink_cases path la ra (some l) false none true = conflict (modify_delete_conflict path l)
merge_symlink_cases path la ra none false none true = operation (delete_symlink path)
merge_symlink_cases path la ra none true none false = nothing
merge_symlink_cases path la ra none true none true = nothing
merge_symlink_cases path la ra l ld r rd = nothing

abbrev pub symlink_change : TreeDiff → Bytes → Option SymlinkChange
symlink_change diff path = or (get diff.symlinks_added path) (get diff.symlinks_modified path)

unfoldable pub merge_symlink : TreeDiff → TreeDiff → Bytes → MergeResult
merge_symlink local remote path =
    merge_symlink_cases path (is_some (get local.symlinks_added path))
      (is_some (get remote.symlinks_added path)) (symlink_change local path)
      (contains local.symlinks_deleted path) (symlink_change remote path)
      (contains remote.symlinks_deleted path)

unfoldable pub all_symlink_paths : TreeDiff → TreeDiff → List Bytes
all_symlink_paths local remote = insert_all remote.symlinks_deleted (
    insert_all (keys remote.symlinks_modified) (
      insert_all (keys remote.symlinks_added) (
        insert_all local.symlinks_deleted
          (insert_all (keys local.symlinks_modified) (insert_all (keys local.symlinks_added) [])))))

unfoldable pub merge_symlinks : TreeDiff → TreeDiff → MergeResult → MergeResult
merge_symlinks local remote =
    merge_paths (merge_symlink local remote) (all_symlink_paths local remote)
