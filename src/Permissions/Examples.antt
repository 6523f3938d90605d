-- ===== src/Permissions/Examples.antt =====
-- A group that may read and list at the root and may not read in `/a`.
use aeordb.Prelude.{◌≡◌, refl, false, Option, none, some, [], ◌∷◌, if◌then◌else◌}
use aeordb.Bytes.{Bytes, bytes_eq}
use aeordb.Errors.{EngineResult, ok, ◌>>=◌}
use aeordb.Permissions.Flags.{Chars, flag_at, parse_crudlify_flags, PermissionLink, PathPermissions}
use aeordb.Permissions.Paths.{path_levels, with_leading_slash}
use aeordb.Permissions.Resolver.{
  index_of, configure, deploy, AccessData, read, is_root, check_direct_permission,
}
use aeordb.Permissions.KeyRules.{
  byte_len, expected_chars, validate_flags, check_operation_permitted, operation_to_flag_char,
}
use aeordb.Permissions.KeyFlags.{check_operation_permitted-flags}
use aeordb.Permissions.Grants.{GrantsIndex}
use aeordb.Permissions.Walk.{last_opinion, check_direct_permission-last_opinion}

abbrev team : Bytes
team = 0x67 ∷ []

abbrev read_and_list : PermissionLink
read_and_list = record {
  group = team;
  allow = 0x2E ∷ 0x72 ∷ 0x2E ∷ 0x2E ∷ 0x6C ∷ [];
  deny = [];
  others_allow = none;
  others_deny = none;
  path_pattern = none;
}

abbrev no_read : PermissionLink
no_read = record read_and_list { allow = []; deny = 0x2E ∷ 0x72 ∷ [] }

files_at : Bytes → EngineResult (Option PathPermissions)
files_at level =
    if bytes_eq level (0x2F ∷ [])
    then ok (some (record { links = read_and_list ∷ [] }))
    else if bytes_eq level (0x2F ∷ 0x61 ∷ [])
    then ok (some (record { links = no_read ∷ [] }))
    else ok none

abbrev access : AccessData
access = record {
  groups_of = λ user_id. ok (team ∷ []);
  permissions_at = files_at;
  grants_index = ok (record { by_group = [] });
}

-- `a/b`
abbrev path_ab : Bytes
path_ab = 0x61 ∷ 0x2F ∷ 0x62 ∷ []

check_direct_permission-last_opinion_example : check_direct_permission access 7 path_ab read ≡ (
    access.groups_of 7 >>= λ groups.
    last_opinion access groups
      (with_leading_slash path_ab)
      read
      (path_levels (with_leading_slash path_ab))
      false)
unfolding is_root
check_direct_permission-last_opinion_example =
    check_direct_permission-last_opinion access 7 path_ab read refl

-- A grant to the team for `/a/b/c`.
abbrev grants : GrantsIndex
grants = record {
  by_group =
      (
        team,
        record {
          dir_path = 0x2F ∷ 0x61 ∷ 0x2F ∷ 0x62 ∷ 0x2F ∷ 0x63 ∷ [];
          allow = [];
          deny = [];
          others_allow = none;
          others_deny = none;
          path_pattern = none;
        }
            ∷ [],
      )
      ∷ [];
}

abbrev access_below : AccessData
access_below = record access { grants_index = ok grants }

-- `-r-----y`
abbrev read_and_configure : Chars
read_and_configure = 0x2D ∷ 0x72 ∷ 0x2D ∷ 0x2D ∷ 0x2D ∷ 0x2D ∷ 0x2D ∷ 0x79 ∷ []

check_operation_permitted-flags_example :
    check_operation_permitted read_and_configure (operation_to_flag_char configure)
    ≡ flag_at (parse_crudlify_flags read_and_configure) (index_of deploy)
unfolding validate_flags byte_len expected_chars
check_operation_permitted-flags_example =
    check_operation_permitted-flags read_and_configure configure refl
