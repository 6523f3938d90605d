-- ===== src/Permissions/Below.antt =====
-- About grants below a path: `user_has_descendant_grants` of aeordb-lib/src/engine/grants_index.rs
-- and `check_permission` of aeordb-lib/src/engine/permission_resolver.rs.
use aeordb.Prelude.{ℕ, ◌≡◌, ◌⊎◌, true, false, some, List}
use mathlib.Core.List.{Memᴰ}
use aeordb.Bytes.{Bytes}
use aeordb.Errors.{ok}
use aeordb.Strings.{get}
use aeordb.Permissions.Grants.{GrantRecord, GrantsIndex, target_path}
use aeordb.Permissions.Ancestors.{IsPathBelow}
use aeordb.Permissions.Paths.{with_leading_slash}
use aeordb.Permissions.Resolver.{CrudlifyOp, read, list, AccessData, check_direct_permission}

-- A grant of one of the groups is for a path below this one.
abbrev pub IsGrantedBelow : GrantsIndex → List Bytes → Bytes → Type 0
IsGrantedBelow index groups path =
    (group : Bytes) × (records : List GrantRecord) × (grant : GrantRecord) × Memᴰ group groups
    × (get index.by_group group ≡ some records)
    × Memᴰ grant records
    × IsPathBelow path (target_path grant)

-- The operations that are needed to walk down to a grant.
abbrev pub IsWalk : CrudlifyOp → Type 0
IsWalk op = (op ≡ read) ⊎ (op ≡ list)

-- What permits an operation to a user of these groups.
abbrev pub IsPermitted : AccessData → GrantsIndex → List Bytes → ℕ → Bytes → CrudlifyOp → Type 0
IsPermitted access index groups user_id path op =
    (check_direct_permission access user_id path op ≡ ok true)
    ⊎ ((check_direct_permission access user_id path op ≡ ok false)
        × IsWalk op
        × IsGrantedBelow index groups (with_leading_slash path))
