-- ===== src/Permissions/Walk.antt =====
-- About the walk over the levels in `check_direct_permission` of
-- aeordb-lib/src/engine/permission_resolver.rs.
use aeordb.Prelude.{
  ℕ, ◌≡◌, refl, ap, ◌∙◌, Bool, false, Option, none, some, List, [], ◌∷◌, length, get_or, replicate,
  arith,
}
use aeordb.Bytes.{Bytes}
use aeordb.Errors.{EngineResult, ok, err, ◌>>=◌}
use aeordb.Permissions.Flags.{PathPermissions}
use aeordb.Permissions.Paths.{path_levels, with_leading_slash}
use aeordb.Permissions.Resolver.{
  CrudlifyOp, index_of, AccessData, is_root, level_state, walk_levels, check_direct_permission,
}
use aeordb.Permissions.Opinions.{opinion, level_state-opinion}

-- The last opinion of the levels, or the one before them.
unfoldable pub last_opinion :
    AccessData → List Bytes → Bytes → CrudlifyOp → List Bytes → Bool → EngineResult Bool
last_opinion access groups path op [] decided = ok decided
last_opinion access groups path op (level ∷ levels) decided = access.permissions_at level >>= λ p.
    last_opinion access groups path op levels
      (elim (opinion groups path op level p) [ none ↦ decided | some b ↦ b ])

walk_levels-last_opinion :
    (access : AccessData) (groups : List Bytes) (path : Bytes) (op : CrudlifyOp)
    (levels : List Bytes) (state : List Bool)
    → length state ≡ 8
    → (walk_levels access groups path levels state >>= λ s. ok (get_or s (index_of op) false))
      ≡ last_opinion access groups path op levels (get_or state (index_of op) false)
unfolding walk_levels last_opinion
walk_levels-last_opinion access groups path op [] state h = refl
walk_levels-last_opinion access groups path op (level ∷ levels) state h =
    go (access.permissions_at level) (walk_levels-last_opinion access groups path op levels)
  where
    go :
        (r : EngineResult (Option PathPermissions))
        → ((s : List Bool)
            → length s ≡ 8
            → (walk_levels access groups path levels s >>= λ t. ok (get_or t (index_of op) false))
              ≡ last_opinion access groups path op levels (get_or s (index_of op) false))
        → ((r >>= λ p.
              walk_levels access groups path levels (level_state groups path level p state))
            >>= λ s. ok (get_or s (index_of op) false))
          ≡ (r >>= λ p.
              last_opinion access groups path op levels (elim (opinion groups path op level p) [
                | none ↦ get_or state (index_of op) false
                | some b ↦ b
              ]))
    go (err e) later = refl
    go (ok p) later =
        let (eight, at) = level_state-opinion groups path level op p state h in
        later (level_state groups path level p state) eight
        ∙ ap (last_opinion access groups path op levels) at

nothing_permitted : (op : CrudlifyOp) → get_or (replicate 8 false) (index_of op) false ≡ false
nothing_permitted op = ground arith

-- For a user other than root, the direct check of an operation is the last opinion of the levels of
-- the path on it, among the user's groups, where a deny at a level beats an allow there, and it is
-- refused if no level has one; the first error of the lookups is the result.
pub check_direct_permission-last_opinion :
    (access : AccessData) (user_id : ℕ) (path : Bytes) (op : CrudlifyOp)
    → is_root user_id ≡ false
    → check_direct_permission access user_id path op ≡ (
        access.groups_of user_id >>= λ groups.
        last_opinion access groups
          (with_leading_slash path)
          op
          (path_levels (with_leading_slash path))
          false)
unfolding check_direct_permission
check_direct_permission-last_opinion access user_id path op user =
    rw user (go (access.groups_of user_id))
  where
    normalized : Bytes
    normalized = with_leading_slash path

    go :
        (r : EngineResult (List Bytes))
        → (r >>= λ groups.
            walk_levels access groups normalized (path_levels normalized) (replicate 8 false)
            >>= λ state. ok (get_or state (index_of op) false))
          ≡ (r >>= λ groups.
              last_opinion access groups normalized op (path_levels normalized) false)
    go (err e) = refl
    go (ok groups) =
        walk_levels-last_opinion access groups normalized op (path_levels normalized)
          (replicate 8 false) refl
        ∙ ap (last_opinion access groups normalized op (path_levels normalized))
            (nothing_permitted op)
