-- ===== src/Merge/Examples.antt =====
-- A merge at concrete diffs: both sides changed one file, each another one, and both added a symlink
-- with the same target and another hash.
use aeordb.Prelude.{◌≡◌, refl, none, [], ◌∷◌, keep}
use aeordb.Prelude.Int.{ℤ, pos, negsuc}
use aeordb.Bytes.{Bytes, bytes_eq}
use aeordb.Strings.{contains, get}
use aeordb.Merge.Types.{FileRecord, SymlinkRecord, TreeDiff}
use aeordb.Merge.Files.{file_change}
use aeordb.Merge.Symlinks.{symlink_change}
use aeordb.Merge.ThreeWay.{three_way_merge}
use aeordb.Merge.View.{file_after, symlink_after, of_path}
use aeordb.Merge.Converge.{
  changed, hash_of, target_of, three_way_merge-converges, three_way_merge-converges_symlinks,
  three_way_merge-conflicts_comm,
}

abbrev path_a : Bytes
path_a = 0x2F ∷ 0x61 ∷ []

abbrev path_b : Bytes
path_b = 0x2F ∷ 0x62 ∷ []

abbrev record_at : ℤ → FileRecord
record_at time = record {
  path = path_a;
  content_type = none;
  total_size = 3;
  created_at = pos 0;
  updated_at = time;
  metadata = [];
  content_hash = [];
  chunk_hashes = [];
}

abbrev link_to : Bytes → SymlinkRecord
link_to target = record { path = path_b; target = target; created_at = pos 0; updated_at = pos 4 }

abbrev local_diff : TreeDiff
local_diff = record {
  added = [];
  modified = (path_a, (1 ∷ [], record_at (negsuc 3))) ∷ [];
  deleted = path_b ∷ [];
  symlinks_added = (path_b, (7 ∷ [], link_to path_a)) ∷ [];
  symlinks_modified = [];
  symlinks_deleted = [];
}

abbrev remote_diff : TreeDiff
remote_diff = record {
  added = [];
  modified = (path_b, (3 ∷ [], record_at (pos 2))) ∷ (path_a, (2 ∷ [], record_at (pos 9))) ∷ [];
  deleted = [];
  symlinks_added = (path_b, (8 ∷ [], link_to path_a)) ∷ [];
  symlinks_modified = [];
  symlinks_deleted = [];
}

three_way_merge-converges_example :
    hash_of (
      file_after path_b
        (three_way_merge local_diff remote_diff).operations
        (changed (file_change local_diff path_b) (contains local_diff.deleted path_b) none))
    ≡ hash_of (
        file_after path_b
          (three_way_merge remote_diff local_diff).operations
          (changed (file_change remote_diff path_b) (contains remote_diff.deleted path_b) none))
unfolding get contains bytes_eq
three_way_merge-converges_example =
    three_way_merge-converges local_diff remote_diff path_b none tt refl

three_way_merge-converges_symlinks_example :
    target_of (
      symlink_after path_b (three_way_merge local_diff remote_diff).operations (
        changed
          (symlink_change local_diff path_b)
          (contains local_diff.symlinks_deleted path_b)
          none))
    ≡ target_of (
        symlink_after path_b (three_way_merge remote_diff local_diff).operations (
          changed
            (symlink_change remote_diff path_b)
            (contains remote_diff.symlinks_deleted path_b)
            none))
unfolding get contains bytes_eq
three_way_merge-converges_symlinks_example =
    three_way_merge-converges_symlinks local_diff remote_diff path_b none refl refl (λ h. refl)

three_way_merge-conflicts_comm_example :
    keep (of_path path_b) (three_way_merge local_diff remote_diff).conflicts
    ≡ keep (of_path path_b) (three_way_merge remote_diff local_diff).conflicts
unfolding get bytes_eq
three_way_merge-conflicts_comm_example =
    three_way_merge-conflicts_comm local_diff remote_diff path_b (λ h. refl)
