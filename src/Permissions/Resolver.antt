-- ===== src/Permissions/Resolver.antt =====
-- `PermissionResolver` of aeordb-lib/src/engine/permission_resolver.rs. The caches that it asks are
-- the operations of `AccessData`; a user is the number of the UUID.
use aeordb.Prelude.{
  ℕ, Bool, true, false, not, ◌&&◌, Option, none, some, List, [], ◌∷◌, ◌++◌, replicate, get_or, ◌==◌,
  if◌then◌else◌,
}
use aeordb.Bytes.{Bytes, bytes_eq}
use aeordb.Strings.{contains}
use aeordb.Errors.{EngineResult, ok, ◌>>=◌}
use aeordb.Permissions.Flags.{
  Chars, PermissionLink, PathPermissions, parse_crudlify_flags, merge_flags, is_set,
}
use aeordb.Permissions.Paths.{
  slash, trim_end_slashes, ends_with_slash, last_segment, path_levels, with_leading_slash,
  target_parent,
}
use aeordb.Permissions.Grants.{GrantsIndex, user_has_descendant_grants}

pub data CrudlifyOp : Type 0 where
  create read update delete list invoke configure deploy : CrudlifyOp

abbrev pub index_of : CrudlifyOp → ℕ
index_of create = 0
index_of read = 1
index_of update = 2
index_of delete = 3
index_of list = 4
index_of invoke = 5
index_of configure = 6
index_of deploy = 7

pub record AccessData : Type 0 where
  pub groups_of : ℕ → EngineResult (List Bytes)
  pub permissions_at : Bytes → EngineResult (Option PathPermissions)
  pub grants_index : EngineResult GrantsIndex

unfoldable pub is_root : ℕ → Bool
is_root user_id = user_id == 0

-- The test at the top of the loop over the links: a pattern is for one file name in its directory.
pattern_applies : Option Bytes → Bytes → Bytes → Bool
pattern_applies none path level = true
pattern_applies (some pattern) path level =
    bytes_eq (trim_end_slashes level) (trim_end_slashes (target_parent path))
    && bytes_eq (last_segment (trim_end_slashes path)) pattern

unfoldable pub link_applies : PermissionLink → Bytes → Bytes → Bool
unfolding pattern_applies
link_applies link path level = pattern_applies link.path_pattern path level

-- `level_allow` and `level_deny`.
pub record LevelFlags : Type 0 where
  pub level_allow : List (Option Bool)
  pub level_deny : List (Option Bool)

abbrev pub merge_some : List (Option Bool) → Option Chars → List (Option Bool)
merge_some target none = target
merge_some target (some flags) = merge_flags target (parse_crudlify_flags flags)

unfoldable pub link_step : List Bytes → Bytes → Bytes → PermissionLink → LevelFlags → LevelFlags
link_step user_groups path level link f =
    if not (link_applies link path level)
    then f
    else if contains user_groups link.group
    then record {
      level_allow = merge_flags f.level_allow (parse_crudlify_flags link.allow);
      level_deny = merge_flags f.level_deny (parse_crudlify_flags link.deny);
    }
    else record {
      level_allow = merge_some f.level_allow link.others_allow;
      level_deny = merge_some f.level_deny link.others_deny;
    }

unfoldable pub links_flags :
    List Bytes → Bytes → Bytes → List PermissionLink → LevelFlags → LevelFlags
links_flags user_groups path level [] f = f
links_flags user_groups path level (link ∷ links) f =
    links_flags user_groups path level links (link_step user_groups path level link f)

abbrev pub head_set : List (Option Bool) → Bool
head_set [] = false
head_set (flag ∷ flags) = is_set flag

abbrev pub rest_of : List (Option Bool) → List (Option Bool)
rest_of [] = []
rest_of (flag ∷ flags) = flags

-- The loop at the end of a level, over the eight positions.
unfoldable pub apply_level : List (Option Bool) → List (Option Bool) → List Bool → List Bool
apply_level level_allow level_deny [] = []
apply_level level_allow level_deny (s ∷ state) =
    (if head_set level_deny then false else if head_set level_allow then true else s)
    ∷ apply_level (rest_of level_allow) (rest_of level_deny) state

abbrev pub no_flags : LevelFlags
no_flags = record { level_allow = replicate 8 none; level_deny = replicate 8 none }

-- One level: without permissions it changes nothing.
unfoldable pub level_state :
    List Bytes → Bytes → Bytes → Option PathPermissions → List Bool → List Bool
level_state user_groups path level none state = state
level_state user_groups path level (some permissions) state =
    let f = links_flags user_groups path level permissions.links no_flags in
    apply_level f.level_allow f.level_deny state

unfoldable pub walk_levels :
    AccessData → List Bytes → Bytes → List Bytes → List Bool → EngineResult (List Bool)
walk_levels access user_groups path [] state = ok state
walk_levels access user_groups path (level ∷ levels) state =
    access.permissions_at level >>= λ permissions.
    walk_levels access user_groups path levels
      (level_state user_groups path level permissions state)

unfoldable pub check_direct_permission : AccessData → ℕ → Bytes → CrudlifyOp → EngineResult Bool
check_direct_permission access user_id path operation =
    let normalized = with_leading_slash path in
    let walked = access.groups_of user_id >>= λ user_groups.
    walk_levels access user_groups normalized (path_levels normalized) (replicate 8 false)
    >>= λ state. ok (get_or state (index_of operation) false) in
    if is_root user_id then ok true else walked

unfoldable pub has_descendant_grants : AccessData → ℕ → Bytes → EngineResult Bool
has_descendant_grants access user_id path =
    if is_root user_id then ok true else access.groups_of user_id >>= in_groups
  where
    in_groups : List Bytes → EngineResult Bool
    in_groups [] = ok false
    in_groups (group ∷ groups) = access.grants_index >>= λ index.
        ok (user_has_descendant_grants index (group ∷ groups) (with_leading_slash path))

-- `matches!(operation, CrudlifyOp::Read | CrudlifyOp::List)`
abbrev pub is_navigation : CrudlifyOp → Bool
is_navigation read = true
is_navigation list = true
is_navigation other = false

unfoldable pub check_permission : AccessData → ℕ → Bytes → CrudlifyOp → EngineResult Bool
check_permission access user_id path operation =
    if is_root user_id
    then ok true
    else check_direct_permission access user_id path operation >>= λ direct.
        if direct
        then ok true
        else if is_navigation operation
        then has_descendant_grants access user_id path
        else ok false

unfoldable pub check_path_permission : AccessData → ℕ → Bytes → CrudlifyOp → EngineResult Bool
check_path_permission access user_id path operation =
    check_direct_permission access user_id path operation >>= λ direct.
    if direct
    then ok true
    else if ends_with_slash path
    then ok false
    else check_direct_permission access user_id (path ++ (slash ∷ [])) operation
