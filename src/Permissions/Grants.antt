-- ===== src/Permissions/Grants.antt =====
-- The queries of aeordb-lib/src/engine/grants_index.rs on an index that is loaded.
use aeordb.Prelude.{
  Bool, true, false, ◌||◌, not, ltb, Option, none, some, List, [], ◌∷◌, ◌++◌, length, take, drop,
  if◌then◌else◌,
}
use aeordb.Bytes.{Bytes, bytes_eq}
use aeordb.Strings.{StringMap, get, insert}
use aeordb.Permissions.Flags.{Chars}
use aeordb.Permissions.Paths.{slash, is_nil, trim_end_slashes, starts_with_slash, split}

pub record GrantRecord : Type 0 where
  pub dir_path : Bytes
  pub allow : Chars
  pub deny : Chars
  pub others_allow : Option Chars
  pub others_deny : Option Chars
  pub path_pattern : Option Bytes

pub record GrantsIndex : Type 0 where
  pub by_group : StringMap (List GrantRecord)

-- The target of a directory grant and of a grant for one file name.
unfoldable pub target_at : Bytes → Option Bytes → Bytes
target_at dir_path none = dir_path
target_at dir_path (some name) =
    if bytes_eq dir_path (slash ∷ []) then slash ∷ name else dir_path ++ (slash ∷ name)

unfoldable pub target_path : GrantRecord → Bytes
target_path record_of = target_at record_of.dir_path record_of.path_pattern

unfoldable pub normalize_for_compare : Bytes → Bytes
normalize_for_compare path = if ltb 1 (length path) then trim_end_slashes path else path

-- `path.starts_with(prefix)`
unfoldable pub starts_with : Bytes → Bytes → Bool
starts_with path prefix = bytes_eq (take (length prefix) path) prefix

-- The tests behind the normalization of `path_is_ancestor_or_equal`.
unfoldable pub normal_ancestor_or_equal : Bytes → Bytes → Bool
normal_ancestor_or_equal ancestor target =
    if bytes_eq ancestor target
    then true
    else if bytes_eq ancestor (slash ∷ [])
    then starts_with_slash target
    else if not (starts_with target ancestor)
    then false
    else starts_with_slash (drop (length ancestor) target)

unfoldable pub path_is_ancestor_or_equal : Bytes → Bytes → Bool
path_is_ancestor_or_equal ancestor target =
    normal_ancestor_or_equal (normalize_for_compare ancestor) (normalize_for_compare target)

unfoldable pub path_is_strict_ancestor : Bytes → Bytes → Bool
path_is_strict_ancestor ancestor target =
    let a = normalize_for_compare ancestor in
    let t = normalize_for_compare target in
    if bytes_eq a t then false else path_is_ancestor_or_equal a t

-- The inner loop of `user_has_descendant_grants`.
unfoldable pub any_below : Bytes → List GrantRecord → Bool
any_below path [] = false
any_below path (record_of ∷ records) =
    path_is_strict_ancestor path (target_path record_of) || any_below path records

abbrev pub records_of : Option (List GrantRecord) → List GrantRecord
records_of none = []
records_of (some records) = records

unfoldable pub user_has_descendant_grants : GrantsIndex → List Bytes → Bytes → Bool
user_has_descendant_grants index [] path = false
user_has_descendant_grants index (group ∷ groups) path =
    any_below path (records_of (get index.by_group group))
    || user_has_descendant_grants index groups path

-- `path.strip_prefix(prefix)`
unfoldable pub strip_prefix : Bytes → Bytes → Option Bytes
strip_prefix path prefix =
    if starts_with path prefix then some (drop (length prefix) path) else none

-- `split('/').next()` of what is left, if anything is.
first_segment : Option Bytes → Option Bytes
first_segment none = none
first_segment (some stripped) =
    if is_nil stripped then none else elim (split stripped) [ [] ↦ some stripped | s ∷ ss ↦ some s ]

strip_slash : Option Bytes → Option Bytes
strip_slash none = none
strip_slash (some after) = strip_prefix after (slash ∷ [])

unfoldable pub next_segment_below : Bytes → Bytes → Option Bytes
unfolding first_segment strip_slash
next_segment_below parent_path target =
    let parent = normalize_for_compare parent_path in
    if bytes_eq parent (slash ∷ [])
    then first_segment (strip_prefix target (slash ∷ []))
    else first_segment (strip_slash (strip_prefix target parent))

-- `names.insert(segment)`
add_name : Option Bytes → List Bytes → List Bytes
add_name none names = names
add_name (some segment) names = insert segment names

unfoldable pub add_child_names : Bytes → List GrantRecord → List Bytes → List Bytes
unfolding add_name
add_child_names parent_path [] names = names
add_child_names parent_path (record_of ∷ records) names =
    add_child_names parent_path records
      (add_name (next_segment_below parent_path (target_path record_of)) names)

-- The loop over the groups; the set is kept in order.
unfoldable pub child_names_from : GrantsIndex → List Bytes → Bytes → List Bytes → List Bytes
child_names_from index [] parent_path names = names
child_names_from index (group ∷ groups) parent_path names =
    child_names_from index groups parent_path
      (add_child_names parent_path (records_of (get index.by_group group)) names)

unfoldable pub accessible_child_names : GrantsIndex → List Bytes → Bytes → List Bytes
accessible_child_names index user_groups parent_path =
    child_names_from index user_groups parent_path []
