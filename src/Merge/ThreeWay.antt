-- ===== src/Merge/ThreeWay.antt =====
-- `three_way_merge` of aeordb-lib/src/engine/merge.rs.
use aeordb.Prelude.{Bool, true, false, not, List, ◌++◌, keep}
use aeordb.Merge.Types.{TreeDiff, MergeOp, MergeResult, nothing, delete_file, delete_symlink}
use aeordb.Merge.Files.{merge_files}
use aeordb.Merge.Symlinks.{merge_symlinks}

abbrev pub is_delete : MergeOp → Bool
is_delete (delete_file path) = true
is_delete (delete_symlink path) = true
is_delete op = false

-- A stable sort by a Boolean key: first the operations with `false`, then those with `true`.
unfoldable pub adds_before_deletes : List MergeOp → List MergeOp
unfolding keep
adds_before_deletes ops = keep (λ op. not (is_delete op)) ops ++ keep is_delete ops

unfoldable pub three_way_merge : TreeDiff → TreeDiff → MergeResult
three_way_merge local_diff remote_diff =
    let result =
      merge_symlinks local_diff remote_diff (merge_files local_diff remote_diff nothing) in
    record { operations = adds_before_deletes result.operations; conflicts = result.conflicts }
