-- ===== src/MergePatch/Rfc.antt =====
-- The algorithm of RFC 7396, section 2, beside that of aeordb-lib/src/engine/merge_patch.rs.
use aeordb.Prelude.{◌≡◌, refl, sym, ap, ◌∙◌, Option, none, some}
use aeordb.MergePatch.Json.{
  Value, null, object, boolean, number, string, array, Members, members_nil, members_cons, get,
  insert, remove,
}
use aeordb.MergePatch.{
  no_bound, unbounded, object_or_empty, descend, allows_merge, apply_object_merge, apply_active,
  apply_merge_patch,
}

-- `MergePatch(Target, Patch)` of the RFC, with the loop over the members of the patch: a target that
-- is not an object counts as an empty one.
unfoldable mutual
  pub rfc_merge : Option Value → Value → Value
  rfc_merge (some (object members)) (object patch) = object (rfc_members members patch)
  rfc_merge other (object patch) = object (rfc_members members_nil patch)
  rfc_merge target null = null
  rfc_merge target (boolean b) = boolean b
  rfc_merge target (number n) = number n
  rfc_merge target (string s) = string s
  rfc_merge target (array vs) = array vs

  pub rfc_members : Members → Members → Members
  rfc_members target members_nil = target
  rfc_members target (members_cons key null patch) = rfc_members (remove key target) patch
  rfc_members target (members_cons key value patch) =
      rfc_members (insert key (rfc_merge (get key target) value) target) patch

rfc_merge-object :
    (target : Option Value) (patch : Members)
    → rfc_merge target (object patch) ≡ object (rfc_members (object_or_empty target) patch)
unfolding rfc_merge object_or_empty
rfc_merge-object (some (object members)) patch = refl
rfc_merge-object (some null) patch = refl
rfc_merge-object (some (boolean b)) patch = refl
rfc_merge-object (some (number n)) patch = refl
rfc_merge-object (some (string s)) patch = refl
rfc_merge-object (some (array vs)) patch = refl
rfc_merge-object none patch = refl

apply_object_merge-rfc :
    (target patch : Members) → apply_object_merge target patch no_bound ≡ rfc_members target patch
unfolding apply_object_merge rfc_members rfc_merge descend allows_merge
apply_object_merge-rfc target members_nil = refl
apply_object_merge-rfc target (members_cons key null patch) =
    apply_object_merge-rfc (remove key target) patch
apply_object_merge-rfc target (members_cons key (object obj) patch) =
    let sub = object_or_empty (get key target) in
    ap (λ m. apply_object_merge (insert key (object m) target) patch no_bound)
      (apply_object_merge-rfc sub obj)
    ∙ (apply_object_merge-rfc (insert key (object (rfc_members sub obj)) target) patch
        ∙ ap (λ v. rfc_members (insert key v target) patch)
            (sym (rfc_merge-object (get key target) obj)))
apply_object_merge-rfc target (members_cons key (boolean b) patch) =
    apply_object_merge-rfc (insert key (boolean b) target) patch
apply_object_merge-rfc target (members_cons key (number n) patch) =
    apply_object_merge-rfc (insert key (number n) target) patch
apply_object_merge-rfc target (members_cons key (string s) patch) =
    apply_object_merge-rfc (insert key (string s) target) patch
apply_object_merge-rfc target (members_cons key (array vs) patch) =
    apply_object_merge-rfc (insert key (array vs) target) patch

-- The patch without a bound is that of the RFC.
pub apply_merge_patch-rfc_merge :
    (target patch : Value)
    → apply_merge_patch target patch unbounded ≡ rfc_merge (some target) patch
unfolding apply_merge_patch apply_active rfc_merge allows_merge
apply_merge_patch-rfc_merge target (object patch) =
    ap (λ m. object m) (apply_object_merge-rfc (object_or_empty (some target)) patch)
    ∙ sym (rfc_merge-object (some target) patch)
apply_merge_patch-rfc_merge target null = refl
apply_merge_patch-rfc_merge target (boolean b) = refl
apply_merge_patch-rfc_merge target (number n) = refl
apply_merge_patch-rfc_merge target (string s) = refl
apply_merge_patch-rfc_merge target (array vs) = refl
