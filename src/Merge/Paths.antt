-- ===== src/Merge/Paths.antt =====
-- About the loops over sets of paths in aeordb-lib/src/engine/merge.rs.
use aeordb.Prelude.{
  ◌≡◌, refl, sym, ◌∙◌, Bool, false, ◌||◌, List, [], ◌∷◌, ◌++◌, if◌then◌else◌, arith, keep,
  keep-append,
}
use mathlib.Core.List.{append-nil, append_assoc}
use aeordb.Bytes.{Bytes, bytes_eq, bytes_eq_iff}
use aeordb.Strings.{contains, insert_all, keys}
use aeordb.Strings.Order.{
  IsSorted, IsAfter-contains, insert_all-IsSorted, contains-insert_all, get-contains,
}
use aeordb.Merge.Types.{TreeDiff, MergeResult, nothing}
use aeordb.Merge.Files.{merge_paths, merge_file, merge_file_cases, all_file_paths}
use aeordb.Merge.Symlinks.{merge_symlink, merge_symlink_cases, all_symlink_paths}

unfoldable pub collect {ℓ} : {A : Type ℓ} → (Bytes → List A) → List Bytes → List A
collect f [] = []
collect f (p ∷ ps) = f p ++ collect f ps

pub operations-merge_paths :
    (step : Bytes → MergeResult) (ps : List Bytes) (r : MergeResult)
    → (merge_paths step ps r).operations ≡ r.operations ++ collect (λ p. (step p).operations) ps
unfolding merge_paths collect
operations-merge_paths step [] r = sym (append-nil _)
operations-merge_paths step (p ∷ ps) r =
    operations-merge_paths step ps _ ∙ append_assoc r.operations (step p).operations _

pub conflicts-merge_paths :
    (step : Bytes → MergeResult) (ps : List Bytes) (r : MergeResult)
    → (merge_paths step ps r).conflicts ≡ r.conflicts ++ collect (λ p. (step p).conflicts) ps
unfolding merge_paths collect
conflicts-merge_paths step [] r = sym (append-nil _)
conflicts-merge_paths step (p ∷ ps) r =
    conflicts-merge_paths step ps _ ∙ append_assoc r.conflicts (step p).conflicts _

-- `f q` holds elements of the path `q` alone.
abbrev pub IsLocal {ℓ} : {A : Type ℓ} → (A → Bool) → (Bytes → List A) → Bytes → Type ℓ
IsLocal touches f p = (q : Bytes) → keep touches (f q) ≡ (if bytes_eq q p then f q else [])

pub keep-collect {ℓ} :
    {A : Type ℓ} (touches : A → Bool) (f : Bytes → List A) (p : Bytes) (ps : List Bytes)
    → IsLocal touches f p
    → IsSorted ps
    → keep touches (collect f ps) ≡ (if contains ps p then f p else [])
unfolding collect contains keep
keep-collect touches f p [] local s = refl
keep-collect touches f p (q ∷ ps) local (a, s) =
    keep-append touches (f q) (collect f ps)
    ∙ ground (
      arith,
      local q,
      keep-collect touches f p ps local s,
      bytes_eq_iff q p,
      IsAfter-contains q ps a,
      append-nil (f p),
    )

pub keep-collect_none {ℓ} :
    {A : Type ℓ} (test : A → Bool) (f : Bytes → List A) (ps : List Bytes)
    → ((q : Bytes) → keep test (f q) ≡ [])
    → keep test (collect f ps) ≡ []
unfolding collect keep
keep-collect_none test f [] h = refl
keep-collect_none test f (q ∷ ps) h =
    keep-append test (f q) (collect f ps) ∙ rw (h q, keep-collect_none test f ps h)

pub all_file_paths-IsSorted : (l r : TreeDiff) → IsSorted (all_file_paths l r)
unfolding all_file_paths
all_file_paths-IsSorted l r = insert_all-IsSorted _ _ (
    insert_all-IsSorted _ _ (
      insert_all-IsSorted _ _
        (insert_all-IsSorted _ _ (insert_all-IsSorted _ _ (insert_all-IsSorted _ _ tt)))))

pub all_symlink_paths-IsSorted : (l r : TreeDiff) → IsSorted (all_symlink_paths l r)
unfolding all_symlink_paths
all_symlink_paths-IsSorted l r = insert_all-IsSorted _ _ (
    insert_all-IsSorted _ _ (
      insert_all-IsSorted _ _
        (insert_all-IsSorted _ _ (insert_all-IsSorted _ _ (insert_all-IsSorted _ _ tt)))))

all_parts :
    (a b c d e f : List Bytes) (p : Bytes)
    → contains
        (insert_all f (insert_all e (insert_all d (insert_all c (insert_all b (insert_all a []))))))
        p
      ≡ (contains f p
          || (contains e p
              || (contains d p || (contains c p || (contains b p || (contains a p || false))))))
unfolding contains
all_parts a b c d e f p = simp contains-insert_all

-- A path in neither diff adds nothing.
pub merge_file-absent :
    (l r : TreeDiff) (p : Bytes)
    → contains (all_file_paths l r) p ≡ false
    → merge_file l r p ≡ nothing
unfolding all_file_paths merge_file merge_file_cases
merge_file-absent l r p h = ground (
  arith,
  all_parts (keys l.added) (keys l.modified) l.deleted (keys r.added) (keys r.modified) r.deleted p,
  get-contains l.added p,
  get-contains l.modified p,
  get-contains r.added p,
  get-contains r.modified p,
)

pub merge_symlink-absent :
    (l r : TreeDiff) (p : Bytes)
    → contains (all_symlink_paths l r) p ≡ false
    → merge_symlink l r p ≡ nothing
unfolding all_symlink_paths merge_symlink merge_symlink_cases
merge_symlink-absent l r p h = ground (
  arith,
  all_parts (keys l.symlinks_added) (keys l.symlinks_modified) l.symlinks_deleted
      (keys r.symlinks_added) (keys r.symlinks_modified) r.symlinks_deleted p,
  get-contains l.symlinks_added p,
  get-contains l.symlinks_modified p,
  get-contains r.symlinks_added p,
  get-contains r.symlinks_modified p,
)
