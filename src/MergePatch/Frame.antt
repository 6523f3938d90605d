-- ===== src/MergePatch/Frame.antt =====
-- About what `apply_object_merge` of aeordb-lib/src/engine/merge_patch.rs does to each key.
use aeordb.Prelude.{
  ◌≡◌, refl, Option, none, some, if◌then◌else◌, arith, subst, Bool-cases, inl, inr, ◌∙◌, ap,
}
use aeordb.Bytes.{Bytes, bytes_eq, bytes_eq_iff}
use aeordb.MergePatch.Json.{
  Value, null, object, boolean, number, string, array, Members, members_nil, members_cons, get,
  insert, remove, get-insert, get-remove,
}
use aeordb.MergePatch.{
  ActiveDepth, BeyondPolicy, replace, preserve, object_or_empty, descend, allows_merge, beyond,
  at_bound, apply_object_merge,
}

-- No key stands twice, as in every map.
abbrev pub IsMap : Members → Type 0
IsMap members_nil = Unit {0}
IsMap (members_cons key value m) = (get key m ≡ none) × IsMap m

-- What an object of the patch beyond the bound leaves of the old value.
abbrev pub kept_or_replaced : BeyondPolicy → Members → Option Value → Option Value
kept_or_replaced replace obj old = some (object obj)
kept_or_replaced preserve obj old = old

-- The value of a key after a patch that has `patch_value` for it.
unfoldable pub effect : ActiveDepth → Option Value → Option Value → Option Value
effect depth none old = old
effect depth (some null) old = none
effect depth (some (object obj)) old =
    let merged = apply_object_merge (object_or_empty old) obj (descend depth) in
    if allows_merge (descend depth)
    then some (object merged)
    else kept_or_replaced (beyond depth) obj old
effect depth (some other) old = some other

-- The step of the loop for one member.
step : ActiveDepth → Bytes → Value → Members → Members
step depth key null target = remove key target
step depth key (object obj) target =
    let merged = apply_object_merge (object_or_empty (get key target)) obj (descend depth) in
    if allows_merge (descend depth)
    then insert key (object merged) target
    else at_bound (beyond depth) key obj target
step depth key other target = insert key other target

apply_object_merge-cons :
    (target : Members) (key : Bytes) (value : Value) (patch : Members) (depth : ActiveDepth)
    → apply_object_merge target (members_cons key value patch) depth
      ≡ apply_object_merge (step depth key value target) patch depth
unfolding apply_object_merge step
apply_object_merge-cons target key null patch depth = refl
apply_object_merge-cons target key (object obj) patch depth = refl
apply_object_merge-cons target key (boolean b) patch depth = refl
apply_object_merge-cons target key (number n) patch depth = refl
apply_object_merge-cons target key (string s) patch depth = refl
apply_object_merge-cons target key (array vs) patch depth = refl

get-at_bound :
    (policy : BeyondPolicy) (key q : Bytes) (obj target : Members)
    → get q (at_bound policy key obj target)
      ≡ (if bytes_eq key q then kept_or_replaced policy obj (get key target) else get q target)
unfolding at_bound
get-at_bound replace key q obj target = get-insert key q (object obj) target
get-at_bound preserve key q obj target = ground (arith, bytes_eq_iff key q)

get-step :
    (depth : ActiveDepth) (key q : Bytes) (value : Value) (target : Members)
    → get q (step depth key value target)
      ≡ (if bytes_eq key q then effect depth (some value) (get key target) else get q target)
unfolding step effect
get-step depth key q null target = get-remove key q target
get-step depth key q (object obj) target =
    let merged = apply_object_merge (object_or_empty (get key target)) obj (descend depth) in
    ground
      (arith, get-insert key q (object merged) target, get-at_bound (beyond depth) key q obj target)
get-step depth key q (boolean b) target = get-insert key q (boolean b) target
get-step depth key q (number n) target = get-insert key q (number n) target
get-step depth key q (string s) target = get-insert key q (string s) target
get-step depth key q (array vs) target = get-insert key q (array vs) target

-- The first member of a patch acts on its own key, and leaves the others to the rest.
effect-step :
    (depth : ActiveDepth) (key q : Bytes) (value : Value) (target patch : Members)
    → get key patch ≡ none
    → effect depth (get q patch) (get q (step depth key value target))
      ≡ effect depth (get q (members_cons key value patch)) (get q target)
unfolding get effect
effect-step depth key q value target patch fresh = elim (Bool-cases (bytes_eq key q)) [
  | inl same ↦
      let e = (bytes_eq_iff key q).0 same in
      let here = get-step depth key q value target in
      rw (same, subst (λ k. get k patch ≡ none) e fresh, here, same)
        (ap (λ k. effect depth (some value) (get k target)) e)
  | inr other ↦ rw (other, get-step depth key q value target, other) refl
]

-- Each key is patched by itself, for a patch in which no key stands twice.
pub get-apply_object_merge :
    (target patch : Members) (depth : ActiveDepth) (q : Bytes)
    → IsMap patch
    → get q (apply_object_merge target patch depth) ≡ effect depth (get q patch) (get q target)
unfolding get effect apply_object_merge
get-apply_object_merge target members_nil depth q h = refl
get-apply_object_merge target (members_cons key value patch) depth q (fresh, h) =
    let target' = step depth key value target in
    ap (get q) (apply_object_merge-cons target key value patch depth)
    ∙ (get-apply_object_merge target' patch depth q h
        ∙ effect-step depth key q value target patch fresh)
