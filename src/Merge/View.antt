-- ===== src/Merge/View.antt =====
-- What a list of operations does to one path, as a file and as a symlink: the specification of a
-- merge, and what `three_way_merge` hands over for one path.
use aeordb.Prelude.{
  ◌≡◌, refl, ap, ◌∙◌, Bool, false, not, Option, none, some, List, [], ◌∷◌, ◌++◌, if◌then◌else◌,
  arith, keep, keep-append, keep-keep, Bool-cases, inl, inr,
}
use mathlib.Core.List.{append-nil}
use aeordb.Bytes.{Bytes, bytes_eq}
use aeordb.Strings.{contains}
use aeordb.Merge.Types.{
  TreeDiff, MergeOp, MergeResult, ConflictEntry, nothing, add_file, delete_file, add_symlink,
  delete_symlink,
}
use aeordb.Merge.Files.{
  FileChange, merge_files, merge_file, merge_file_cases, all_file_paths, resolve_file_conflict,
  make_modify_delete_conflict,
}
use aeordb.Merge.Symlinks.{
  SymlinkChange, merge_symlinks, merge_symlink, merge_symlink_cases, all_symlink_paths,
  resolve_symlink_conflict, modify_delete_conflict,
}
use aeordb.Merge.ThreeWay.{three_way_merge, adds_before_deletes, is_delete}
use aeordb.Merge.Paths.{
  collect, operations-merge_paths, conflicts-merge_paths, IsLocal, keep-collect, keep-collect_none,
  all_file_paths-IsSorted, all_symlink_paths-IsSorted, merge_file-absent, merge_symlink-absent,
}

-- The file at a path after the operations, from the file before them.
unfoldable pub file_after : Bytes → List MergeOp → Option FileChange → Option FileChange
file_after p [] o = o
file_after p (add_file q h r ∷ ops) o = file_after p ops (if bytes_eq q p then some (h, r) else o)
file_after p (delete_file q ∷ ops) o = file_after p ops (if bytes_eq q p then none else o)
file_after p (add_symlink q h r ∷ ops) o = file_after p ops o
file_after p (delete_symlink q ∷ ops) o = file_after p ops o

unfoldable pub symlink_after : Bytes → List MergeOp → Option SymlinkChange → Option SymlinkChange
symlink_after p [] o = o
symlink_after p (add_file q h r ∷ ops) o = symlink_after p ops o
symlink_after p (delete_file q ∷ ops) o = symlink_after p ops o
symlink_after p (add_symlink q h r ∷ ops) o =
    symlink_after p ops (if bytes_eq q p then some (h, r) else o)
symlink_after p (delete_symlink q ∷ ops) o = symlink_after p ops (if bytes_eq q p then none else o)

abbrev touches_file : Bytes → MergeOp → Bool
touches_file p (add_file q h r) = bytes_eq q p
touches_file p (delete_file q) = bytes_eq q p
touches_file p op = false

abbrev touches_symlink : Bytes → MergeOp → Bool
touches_symlink p (add_symlink q h r) = bytes_eq q p
touches_symlink p (delete_symlink q) = bytes_eq q p
touches_symlink p op = false

file_after-keep :
    (p : Bytes) (ops : List MergeOp) (o : Option FileChange)
    → file_after p ops o ≡ file_after p (keep (touches_file p) ops) o
unfolding file_after keep
file_after-keep p [] o = refl
file_after-keep p (add_file q h r ∷ ops) o =
    ground (arith, file_after-keep p ops o, file_after-keep p ops (some (h, r)))
file_after-keep p (delete_file q ∷ ops) o =
    ground (arith, file_after-keep p ops o, file_after-keep p ops none)
file_after-keep p (add_symlink q h r ∷ ops) o = file_after-keep p ops o
file_after-keep p (delete_symlink q ∷ ops) o = file_after-keep p ops o

symlink_after-keep :
    (p : Bytes) (ops : List MergeOp) (o : Option SymlinkChange)
    → symlink_after p ops o ≡ symlink_after p (keep (touches_symlink p) ops) o
unfolding symlink_after keep
symlink_after-keep p [] o = refl
symlink_after-keep p (add_symlink q h r ∷ ops) o =
    ground (arith, symlink_after-keep p ops o, symlink_after-keep p ops (some (h, r)))
symlink_after-keep p (delete_symlink q ∷ ops) o =
    ground (arith, symlink_after-keep p ops o, symlink_after-keep p ops none)
symlink_after-keep p (add_file q h r ∷ ops) o = symlink_after-keep p ops o
symlink_after-keep p (delete_file q ∷ ops) o = symlink_after-keep p ops o

module _ (l r : TreeDiff) (p : Bytes) where
  file_ops-IsLocal : IsLocal (touches_file p) (λ q. (merge_file l r q).operations) p
  unfolding merge_file merge_file_cases resolve_file_conflict keep
  file_ops-IsLocal q = ground arith

  symlink_ops-IsLocal : IsLocal (touches_symlink p) (λ q. (merge_symlink l r q).operations) p
  unfolding merge_symlink merge_symlink_cases resolve_symlink_conflict keep
  symlink_ops-IsLocal q = ground arith

  symlink_ops-no_file : (q : Bytes) → keep (touches_file p) (merge_symlink l r q).operations ≡ []
  unfolding merge_symlink merge_symlink_cases resolve_symlink_conflict keep
  symlink_ops-no_file q = ground arith

  file_ops-no_symlink : (q : Bytes) → keep (touches_symlink p) (merge_file l r q).operations ≡ []
  unfolding merge_file merge_file_cases resolve_file_conflict keep
  file_ops-no_symlink q = ground arith

  abbrev raw : MergeResult
  raw = merge_symlinks l r (merge_files l r nothing)

  abbrev file_part : List MergeOp
  file_part = collect (λ q. (merge_file l r q).operations) (all_file_paths l r)

  abbrev symlink_part : List MergeOp
  symlink_part = collect (λ q. (merge_symlink l r q).operations) (all_symlink_paths l r)

  raw-operations : raw.operations ≡ file_part ++ symlink_part
  unfolding merge_files merge_symlinks
  raw-operations =
      operations-merge_paths (merge_symlink l r) (all_symlink_paths l r) (merge_files l r nothing)
      ∙ ap (λ ops. ops ++ symlink_part)
          (operations-merge_paths (merge_file l r) (all_file_paths l r) nothing)

  file_present :
      {A : Type 0} (part : MergeResult → List A)
      → part nothing ≡ []
      → (if contains (all_file_paths l r) p then part (merge_file l r p) else [])
        ≡ part (merge_file l r p)
  file_present part e = elim (Bool-cases (contains (all_file_paths l r) p)) [
    | inl h ↦ rw h
    | inr h ↦ rw (h, merge_file-absent l r p h, e)
  ]

  symlink_present :
      {A : Type 0} (part : MergeResult → List A)
      → part nothing ≡ []
      → (if contains (all_symlink_paths l r) p then part (merge_symlink l r p) else [])
        ≡ part (merge_symlink l r p)
  symlink_present part e = elim (Bool-cases (contains (all_symlink_paths l r) p)) [
    | inl h ↦ rw h
    | inr h ↦ rw (h, merge_symlink-absent l r p h, e)
  ]

  -- The operations on the file of a path are those of its own step.
  raw-file_ops : keep (touches_file p) raw.operations ≡ (merge_file l r p).operations
  raw-file_ops =
      ap (keep (touches_file p)) raw-operations
      ∙ keep-append (touches_file p) file_part symlink_part
      ∙ rw
          (
            keep-collect (touches_file p) (λ q. (merge_file l r q).operations) p
                (all_file_paths l r) file_ops-IsLocal (all_file_paths-IsSorted l r),
            keep-collect_none (touches_file p) (λ q. (merge_symlink l r q).operations)
                (all_symlink_paths l r) symlink_ops-no_file,
            append-nil,
          )
          (file_present (λ m. m.operations) refl)

  raw-symlink_ops : keep (touches_symlink p) raw.operations ≡ (merge_symlink l r p).operations
  raw-symlink_ops =
      ap (keep (touches_symlink p)) raw-operations
      ∙ keep-append (touches_symlink p) file_part symlink_part
      ∙ rw
          (
            keep-collect_none (touches_symlink p) (λ q. (merge_file l r q).operations)
                (all_file_paths l r) file_ops-no_symlink,
            keep-collect (touches_symlink p) (λ q. (merge_symlink l r q).operations) p
                (all_symlink_paths l r) symlink_ops-IsLocal (all_symlink_paths-IsSorted l r),
          )
          (symlink_present (λ m. m.operations) refl)

keep-adds_before_deletes :
    (test : MergeOp → Bool) (ops : List MergeOp)
    → keep test (adds_before_deletes ops) ≡ adds_before_deletes (keep test ops)
unfolding adds_before_deletes
keep-adds_before_deletes test ops =
    keep-append test (keep (λ op. not (is_delete op)) ops) (keep is_delete ops)
    ∙ rw (keep-keep test (λ op. not (is_delete op)) ops, keep-keep test is_delete ops)

abbrev pub of_path : Bytes → ConflictEntry → Bool
of_path p entry = bytes_eq entry.path p

module _ (l r : TreeDiff) (p : Bytes) where
  -- At one path the whole result does what the step for the path does.
  pub file_after-three_way_merge :
      (o : Option FileChange)
      → file_after p (three_way_merge l r).operations o
        ≡ file_after p (adds_before_deletes (merge_file l r p).operations) o
  unfolding three_way_merge
  file_after-three_way_merge o =
      file_after-keep p (three_way_merge l r).operations o
      ∙ rw (keep-adds_before_deletes (touches_file p) (raw l r p).operations, raw-file_ops l r p)

  pub symlink_after-three_way_merge :
      (o : Option SymlinkChange)
      → symlink_after p (three_way_merge l r).operations o
        ≡ symlink_after p (adds_before_deletes (merge_symlink l r p).operations) o
  unfolding three_way_merge
  symlink_after-three_way_merge o =
      symlink_after-keep p (three_way_merge l r).operations o
      ∙ rw (
        keep-adds_before_deletes (touches_symlink p) (raw l r p).operations,
        raw-symlink_ops l r p,
      )

  file_conflicts-IsLocal : IsLocal (of_path p) (λ q. (merge_file l r q).conflicts) p
  unfolding merge_file merge_file_cases resolve_file_conflict make_modify_delete_conflict keep
  file_conflicts-IsLocal q = ground arith

  symlink_conflicts-IsLocal : IsLocal (of_path p) (λ q. (merge_symlink l r q).conflicts) p
  unfolding merge_symlink merge_symlink_cases resolve_symlink_conflict modify_delete_conflict keep
  symlink_conflicts-IsLocal q = ground arith

  raw-conflicts :
      (raw l r p).conflicts
      ≡ collect (λ q. (merge_file l r q).conflicts) (all_file_paths l r)
        ++ collect (λ q. (merge_symlink l r q).conflicts) (all_symlink_paths l r)
  unfolding merge_files merge_symlinks
  raw-conflicts =
      conflicts-merge_paths (merge_symlink l r) (all_symlink_paths l r) (merge_files l r nothing)
      ∙ ap (λ cs. cs ++ collect (λ q. (merge_symlink l r q).conflicts) (all_symlink_paths l r))
          (conflicts-merge_paths (merge_file l r) (all_file_paths l r) nothing)

  -- The conflicts recorded for one path: that of its file, and that of its symlink.
  pub conflicts-three_way_merge :
      keep (of_path p) (three_way_merge l r).conflicts
      ≡ (merge_file l r p).conflicts ++ (merge_symlink l r p).conflicts
  unfolding three_way_merge
  conflicts-three_way_merge =
      ap (keep (of_path p)) raw-conflicts
      ∙ keep-append (of_path p) (collect (λ q. (merge_file l r q).conflicts) (all_file_paths l r))
          (collect (λ q. (merge_symlink l r q).conflicts) (all_symlink_paths l r))
      ∙ rw (
        keep-collect (of_path p) (λ q. (merge_file l r q).conflicts) p (all_file_paths l r)
            file_conflicts-IsLocal (all_file_paths-IsSorted l r),
        keep-collect (of_path p) (λ q. (merge_symlink l r q).conflicts) p (all_symlink_paths l r)
            symlink_conflicts-IsLocal (all_symlink_paths-IsSorted l r),
        file_present l r p (λ m. m.conflicts) refl,
        symlink_present l r p (λ m. m.conflicts) refl,
      )
