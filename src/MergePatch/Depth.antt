-- ===== src/MergePatch/Depth.antt =====
-- About the depth bound of aeordb-lib/src/engine/merge_patch.rs.
use aeordb.Prelude.{ℕ, suc, ◌-◌, ◌<◌, ◌≡◌, refl, ap, max, ltb, arith, some, true}
use aeordb.MergePatch.Json.{
  Value, null, object, boolean, number, string, array, Members, members_nil, members_cons, get,
  insert, remove,
}
use aeordb.MergePatch.{
  BeyondPolicy, replace, preserve, no_bound, bounded, unbounded, replace_beyond, preserve_beyond,
  object_or_empty, descend, allows_merge, apply_object_merge, apply_active, apply_merge_patch,
}

-- How many levels of objects stand within the members of a patch.
unfoldable pub levels_of : Members → ℕ
levels_of members_nil = 0
levels_of (members_cons key (object obj) patch) = max (suc (levels_of obj)) (levels_of patch)
levels_of (members_cons key other patch) = levels_of patch

ltb_pos : (n : ℕ) → 0 < n → ltb 0 n ≡ true
ltb_pos n h = ground arith

apply_object_merge-deep :
    (target patch : Members) (n : ℕ) (policy : BeyondPolicy)
    → levels_of patch < n
    → apply_object_merge target patch (bounded n policy) ≡ apply_object_merge target patch no_bound
unfolding apply_object_merge levels_of descend allows_merge
apply_object_merge-deep target members_nil n policy h = refl
apply_object_merge-deep target (members_cons key null patch) n policy h =
    apply_object_merge-deep (remove key target) patch n policy h
apply_object_merge-deep target (members_cons key (object obj) patch) n policy h =
    let sub = object_or_empty (get key target) in
    let allowed = ltb_pos (n - 1) (omega arith) in
    rw (allowed, apply_object_merge-deep sub obj (n - 1) policy (omega arith))
      (apply_object_merge-deep (insert key (object (apply_object_merge sub obj no_bound)) target)
        patch n policy (omega arith))
apply_object_merge-deep target (members_cons key (boolean b) patch) n policy h =
    apply_object_merge-deep (insert key (boolean b) target) patch n policy h
apply_object_merge-deep target (members_cons key (number k) patch) n policy h =
    apply_object_merge-deep (insert key (number k) target) patch n policy h
apply_object_merge-deep target (members_cons key (string s) patch) n policy h =
    apply_object_merge-deep (insert key (string s) target) patch n policy h
apply_object_merge-deep target (members_cons key (array vs) patch) n policy h =
    apply_object_merge-deep (insert key (array vs) target) patch n policy h

-- For a patch object with fewer levels below it than the bound, both kinds of bound do what the
-- patch without a bound does.
pub apply_merge_patch-deep :
    (target : Value) (patch : Members) (n : ℕ)
    → levels_of patch < n
    → (apply_merge_patch target (object patch) (replace_beyond n)
        ≡ apply_merge_patch target (object patch) unbounded)
      × (apply_merge_patch target (object patch) (preserve_beyond n)
          ≡ apply_merge_patch target (object patch) unbounded)
unfolding apply_merge_patch apply_active allows_merge
apply_merge_patch-deep target patch n h =
    let allowed = ltb_pos n (omega arith) in
    let start = object_or_empty (some target) in
    (
      rw allowed (ap (λ m. object m) (apply_object_merge-deep start patch n replace h)),
      rw allowed (ap (λ m. object m) (apply_object_merge-deep start patch n preserve h)),
    )
