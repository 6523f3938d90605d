-- ===== src/Merge/Converge.antt =====
-- About two nodes that each merge the diff of the other, by aeordb-lib/src/engine/merge.rs.
use aeordb.Prelude.{◌≡◌, refl, sym, ◌∙◌, Bool, true, false, not, Option, none, some, arith, keep}
use aeordb.Prelude.Int.{ℤ}
use aeordb.Bytes.{Bytes, bytes_eq, bytes_eq_refl, bytes_eq_iff}
use aeordb.Strings.{contains}
use aeordb.Strings.Order.{bytes_lt_total, bytes_eq_sym}
use aeordb.Merge.Types.{TreeDiff, local_wins}
use aeordb.Merge.Files.{
  FileChange, file_change, merge_file, merge_file_cases, resolve_file_conflict,
}
use aeordb.Merge.Symlinks.{
  SymlinkChange, symlink_change, merge_symlink, merge_symlink_cases, resolve_symlink_conflict,
}
use aeordb.Merge.ThreeWay.{three_way_merge, adds_before_deletes}
use aeordb.Merge.View.{
  file_after, symlink_after, of_path, file_after-three_way_merge, symlink_after-three_way_merge,
  conflicts-three_way_merge,
}

-- Between different hashes exactly one side wins, whichever is called local.
pub local_wins_swap :
    (t u : ℤ) (x y : Bytes) → bytes_eq x y ≡ false → local_wins t x u y ≡ not (local_wins u y t x)
unfolding local_wins
local_wins_swap t u x y h = ground (arith, bytes_lt_total x y)

-- What a diff makes of an entry of the base.
abbrev pub changed {ℓ} : {A : Type ℓ} → Option A → Bool → Option A → Option A
changed (some c) deleted base = some c
changed none true base = none
changed none false base = base

abbrev pub hash_of {ℓ} : {A : Type ℓ} → Option (Bytes × A) → Option Bytes
hash_of none = none
hash_of (some (hash, record_of)) = some hash

-- A path is changed or deleted by a diff, not both.
abbrev pub IsExclusive {ℓ} : {A : Type ℓ} → Option A → Bool → Type 0
IsExclusive (some c) deleted = deleted ≡ false
IsExclusive none deleted = Unit {0}

file_cases-converge :
    (p : Bytes) (la ra : Bool) (lc : Option FileChange) (ld : Bool) (rc : Option FileChange)
    (rd : Bool) (base : Option FileChange)
    → IsExclusive lc ld
    → IsExclusive rc rd
    → hash_of (
        file_after p
          (adds_before_deletes (merge_file_cases p la ra lc ld rc rd).operations)
          (changed lc ld base))
      ≡ hash_of (
          file_after p
            (adds_before_deletes (merge_file_cases p ra la rc rd lc ld).operations)
            (changed rc rd base))
unfolding merge_file_cases resolve_file_conflict adds_before_deletes file_after
file_cases-converge p la ra none true none true base hl hr = refl
file_cases-converge p la ra none true none false base hl hr = rw (bytes_eq_refl p)
file_cases-converge p la ra none false none true base hl hr = rw (bytes_eq_refl p)
file_cases-converge p la ra none false none false base hl hr = refl
file_cases-converge p la ra (some (lh, lr)) true rc rd base hl hr = cc
file_cases-converge p la ra lc ld (some (rh, rr)) true base hl hr = cc
file_cases-converge p la ra (some (lh, lr)) false none true base hl hr = rw (bytes_eq_refl p)
file_cases-converge p la ra (some (lh, lr)) false none false base hl hr = rw (bytes_eq_refl p)
file_cases-converge p la ra none true (some (rh, rr)) false base hl hr = rw (bytes_eq_refl p)
file_cases-converge p la ra none false (some (rh, rr)) false base hl hr = rw (bytes_eq_refl p)
file_cases-converge p la ra (some (lh, lr)) false (some (rh, rr)) false base hl hr = ground (
  arith,
  bytes_eq_sym lh rh,
  bytes_eq_iff lh rh,
  bytes_eq_refl p,
  local_wins_swap lr.updated_at rr.updated_at lh rh,
)

-- If each node merges the other's diff into its own, every path ends with the same file hash on
-- both: for diffs that do not both change and delete the path, from any common base.
pub three_way_merge-converges :
    (local remote : TreeDiff) (p : Bytes) (base : Option FileChange)
    → IsExclusive (file_change local p) (contains local.deleted p)
    → IsExclusive (file_change remote p) (contains remote.deleted p)
    → hash_of (
        file_after p
          (three_way_merge local remote).operations
          (changed (file_change local p) (contains local.deleted p) base))
      ≡ hash_of (
          file_after p
            (three_way_merge remote local).operations
            (changed (file_change remote p) (contains remote.deleted p) base))
unfolding merge_file
three_way_merge-converges local remote p base hl hr =
    rw
      (
        file_after-three_way_merge local remote p
            (changed (file_change local p) (contains local.deleted p) base),
        file_after-three_way_merge remote local p
            (changed (file_change remote p) (contains remote.deleted p) base),
      )
      (file_cases-converge p _ _ (file_change local p) _ (file_change remote p) _ base hl hr)

abbrev pub target_of : Option SymlinkChange → Option Bytes
target_of none = none
target_of (some (hash, record_of)) = some record_of.target

-- Equal hashes of symlinks mean equal targets; equal targets may have different hashes.
abbrev pub IsIdentity : Option SymlinkChange → Option SymlinkChange → Type 0
IsIdentity (some (lh, lr)) (some (rh, rr)) =
    bytes_eq lh rh ≡ true → bytes_eq lr.target rr.target ≡ true
IsIdentity l r = Unit {0}

symlink_cases-converge :
    (p : Bytes) (la ra : Bool) (lc : Option SymlinkChange) (ld : Bool) (rc : Option SymlinkChange)
    (rd : Bool) (base : Option SymlinkChange)
    → IsExclusive lc ld
    → IsExclusive rc rd
    → IsIdentity lc rc
    → target_of (
        symlink_after p
          (adds_before_deletes (merge_symlink_cases p la ra lc ld rc rd).operations)
          (changed lc ld base))
      ≡ target_of (
          symlink_after p
            (adds_before_deletes (merge_symlink_cases p ra la rc rd lc ld).operations)
            (changed rc rd base))
unfolding merge_symlink_cases resolve_symlink_conflict adds_before_deletes symlink_after
symlink_cases-converge p la ra none true none true base hl hr hi = refl
symlink_cases-converge p la ra none true none false base hl hr hi = rw (bytes_eq_refl p)
symlink_cases-converge p la ra none false none true base hl hr hi = rw (bytes_eq_refl p)
symlink_cases-converge p la ra none false none false base hl hr hi = refl
symlink_cases-converge p la ra (some (lh, lr)) true rc rd base hl hr hi = cc
symlink_cases-converge p la ra lc ld (some (rh, rr)) true base hl hr hi = cc
symlink_cases-converge p la ra (some (lh, lr)) false none true base hl hr hi = rw (bytes_eq_refl p)
symlink_cases-converge p la ra (some (lh, lr)) false none false base hl hr hi = rw (bytes_eq_refl p)
symlink_cases-converge p la ra none true (some (rh, rr)) false base hl hr hi = rw (bytes_eq_refl p)
symlink_cases-converge p la ra none false (some (rh, rr)) false base hl hr hi = rw (bytes_eq_refl p)
symlink_cases-converge p la ra (some (lh, lr)) false (some (rh, rr)) false base hl hr hi = ground (
  arith,
  bytes_eq_sym lr.target rr.target,
  bytes_eq_iff lr.target rr.target,
  bytes_eq_refl p,
  local_wins_swap lr.updated_at rr.updated_at lh rh,
)

-- If each node merges the other's diff into its own, every path ends with the same symlink target
-- on both: for diffs that do not both change and delete the path, from any common base, where equal
-- hashes of the two symlinks mean equal targets.
pub three_way_merge-converges_symlinks :
    (local remote : TreeDiff) (p : Bytes) (base : Option SymlinkChange)
    → IsExclusive (symlink_change local p) (contains local.symlinks_deleted p)
    → IsExclusive (symlink_change remote p) (contains remote.symlinks_deleted p)
    → IsIdentity (symlink_change local p) (symlink_change remote p)
    → target_of (
        symlink_after p
          (three_way_merge local remote).operations
          (changed (symlink_change local p) (contains local.symlinks_deleted p) base))
      ≡ target_of (
          symlink_after p
            (three_way_merge remote local).operations
            (changed (symlink_change remote p) (contains remote.symlinks_deleted p) base))
unfolding merge_symlink
three_way_merge-converges_symlinks local remote p base hl hr hi =
    rw
      (
        symlink_after-three_way_merge local remote p
            (changed (symlink_change local p) (contains local.symlinks_deleted p) base),
        symlink_after-three_way_merge remote local p
            (changed (symlink_change remote p) (contains remote.symlinks_deleted p) base),
      )
      (symlink_cases-converge p _ _ (symlink_change local p) _ (symlink_change remote p) _ base hl
        hr hi)

file_cases-conflicts :
    (p : Bytes) (la ra : Bool) (lc : Option FileChange) (ld : Bool) (rc : Option FileChange)
    (rd : Bool)
    → (merge_file_cases p la ra lc ld rc rd).conflicts
      ≡ (merge_file_cases p ra la rc rd lc ld).conflicts
unfolding merge_file_cases resolve_file_conflict
file_cases-conflicts p la ra (some (lh, lr)) false (some (rh, rr)) false =
    ground (arith, bytes_eq_sym lh rh, local_wins_swap lr.updated_at rr.updated_at lh rh)
file_cases-conflicts p la ra lc ld rc rd = ground arith

symlink_cases-conflicts :
    (p : Bytes) (la ra : Bool) (lc : Option SymlinkChange) (ld : Bool) (rc : Option SymlinkChange)
    (rd : Bool)
    → IsIdentity lc rc
    → (merge_symlink_cases p la ra lc ld rc rd).conflicts
      ≡ (merge_symlink_cases p ra la rc rd lc ld).conflicts
unfolding merge_symlink_cases resolve_symlink_conflict
symlink_cases-conflicts p la ra (some (lh, lr)) false (some (rh, rr)) false hi =
    ground
      (arith, bytes_eq_sym lr.target rr.target, local_wins_swap lr.updated_at rr.updated_at lh rh)
symlink_cases-conflicts p la ra lc ld rc rd hi = ground arith

-- The conflicts recorded for a path, with their winners and losers, do not depend on which side is
-- called local, where equal symlink hashes mean equal targets.
pub three_way_merge-conflicts_comm :
    (local remote : TreeDiff) (p : Bytes)
    → IsIdentity (symlink_change local p) (symlink_change remote p)
    → keep (of_path p) (three_way_merge local remote).conflicts
      ≡ keep (of_path p) (three_way_merge remote local).conflicts
unfolding merge_file merge_symlink
three_way_merge-conflicts_comm local remote p hi =
    conflicts-three_way_merge local remote p
    ∙ rw
        (
          file_cases-conflicts p _ _ (file_change local p) _ (file_change remote p)
              (contains remote.deleted p),
          symlink_cases-conflicts p _ _ (symlink_change local p) _ (symlink_change remote p)
              (contains remote.symlinks_deleted p) hi,
        )
        (sym (conflicts-three_way_merge remote local p))
