-- ===== src/MergePatch.antt =====
-- aeordb-lib/src/engine/merge_patch.rs: JSON merge patch with a bound on its depth. A JSON object
-- is the ordered map of serde_json.
pub mod Json
pub mod Rfc
pub mod Frame
pub mod Paths
pub mod Depth
mod Examples
use aeordb.Prelude.{
  ℕ, zero, suc, ◌-◌, ◌<◌, Bool, true, false, Option, none, some, ltb, if◌then◌else◌,
}
use aeordb.Bytes.{Bytes}
use aeordb.MergePatch.Json.{
  Value, null, object, Members, members_nil, members_cons, get, insert, remove,
}

pub data MergeDepth : Type 0 where
  unbounded full_replace : MergeDepth
  replace_beyond preserve_beyond : ℕ → MergeDepth

pub data BeyondPolicy : Type 0 where
  replace preserve : BeyondPolicy

pub data ActiveDepth : Type 0 where
  no_bound : ActiveDepth
  bounded : ℕ → BeyondPolicy → ActiveDepth

unfoldable pub descend : ActiveDepth → ActiveDepth
descend no_bound = no_bound
descend (bounded levels policy) = bounded (levels - 1) policy

unfoldable pub allows_merge : ActiveDepth → Bool
allows_merge no_bound = true
allows_merge (bounded levels policy) = ltb 0 levels

unfoldable pub beyond : ActiveDepth → BeyondPolicy
beyond no_bound = replace
beyond (bounded levels policy) = policy

-- The object that a key holds: an empty one for a missing key or another value.
unfoldable pub object_or_empty : Option Value → Members
object_or_empty (some (object members)) = members
object_or_empty other = members_nil

-- An object beyond the bound.
unfoldable pub at_bound : BeyondPolicy → Bytes → Members → Members → Members
at_bound replace key patch_obj target = insert key (object patch_obj) target
at_bound preserve key patch_obj target = target

unfoldable pub apply_object_merge : Members → Members → ActiveDepth → Members
unfolding object_or_empty at_bound allows_merge descend beyond
apply_object_merge target members_nil depth = target
apply_object_merge target (members_cons key null patch) depth =
    apply_object_merge (remove key target) patch depth
apply_object_merge target (members_cons key (object patch_obj) patch) depth =
    let sub_target = object_or_empty (get key target) in
    let merged = apply_object_merge sub_target patch_obj (descend depth) in
    let target' =
      if allows_merge (descend depth)
      then insert key (object merged) target
      else at_bound (beyond depth) key patch_obj target in
    apply_object_merge target' patch depth
apply_object_merge target (members_cons key other patch) depth =
    apply_object_merge (insert key other target) patch depth

-- `apply_merge_patch` behind its first `if`.
unfoldable pub apply_active : Value → Value → ActiveDepth → Value
unfolding object_or_empty allows_merge beyond
apply_active target patch depth =
    if allows_merge depth
    then within target patch depth
    else elim (beyond depth) [ replace ↦ patch | preserve ↦ target ]
  where
    within : Value → Value → ActiveDepth → Value
    within target (object patch_obj) depth =
        object (apply_object_merge (object_or_empty (some target)) patch_obj depth)
    within target other depth = other

unfoldable pub apply_merge_patch : Value → Value → MergeDepth → Value
apply_merge_patch target patch full_replace = patch
apply_merge_patch target patch unbounded = apply_active target patch no_bound
apply_merge_patch target patch (replace_beyond n) = apply_active target patch (bounded n replace)
apply_merge_patch target patch (preserve_beyond n) = apply_active target patch (bounded n preserve)
