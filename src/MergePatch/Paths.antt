-- ===== src/MergePatch/Paths.antt =====
-- About what aeordb-lib/src/engine/merge_patch.rs leaves at each path of keys within a document.
use aeordb.Prelude.{
  ℕ, zero, suc, ◌-◌, ltb, true, arith, ◌≡◌, refl, ap, ◌∙◌, Bool, Bool-cases, inl, inr, Option, none,
  some, List, [], ◌∷◌,
}
use aeordb.Bytes.{Bytes, bytes_eq}
use aeordb.MergePatch.Json.{
  Value, null, object, boolean, number, string, array, Values, Members, members_nil, members_cons,
  get,
}
use aeordb.MergePatch.{
  MergeDepth, unbounded, full_replace, replace_beyond, preserve_beyond, replace, preserve,
  ActiveDepth, no_bound, bounded, object_or_empty, descend, allows_merge, beyond,
  apply_object_merge, apply_active, apply_merge_patch,
}
use aeordb.MergePatch.Frame.{IsMap, effect, get-apply_object_merge}

-- What stands at a place of a document: an object is seen by what stands below it.
pub data Seen : Type 0 where
  nothing_there an_object null_there : Seen
  boolean_there : Bool → Seen
  number_there string_there : Bytes → Seen
  array_there : Values → Seen

seen_value : Value → Seen
seen_value null = null_there
seen_value (boolean b) = boolean_there b
seen_value (number n) = number_there n
seen_value (string s) = string_there s
seen_value (array vs) = array_there vs
seen_value (object m) = an_object

abbrev pub member : Bytes → Option Value → Option Value
member key (some (object m)) = get key m
member key other = none

-- What stands at a path of keys below a value.
unfoldable pub seen : List Bytes → Option Value → Seen
unfolding seen_value
seen [] none = nothing_there
seen [] (some v) = seen_value v
seen (key ∷ path) old = seen path (member key old)

-- What stands at a path below a place that held `old` and for which the patch has `new`, where
-- objects are merged for so many levels from there on.
unfoldable pub patched : ActiveDepth → List Bytes → Option Value → Option Value → Seen
patched depth path none old = seen path old
patched depth path (some null) old = nothing_there
patched (bounded zero replace) path (some (object obj)) old = seen path (some (object obj))
patched (bounded zero preserve) path (some (object obj)) old = seen path old
patched (bounded (suc n) policy) [] (some (object obj)) old = an_object
patched (bounded (suc n) policy) (key ∷ path) (some (object obj)) old =
    patched (bounded n policy) path (get key obj) (member key old)
patched no_bound [] (some (object obj)) old = an_object
patched no_bound (key ∷ path) (some (object obj)) old =
    patched no_bound path (get key obj) (member key old)
patched depth path (some other) old = seen path (some other)

-- No key stands twice in any object of a document.
unfoldable mutual
  pub IsDocument : Value → Type 0
  IsDocument (object m) = AreDocuments m
  IsDocument other = Unit {0}

  pub AreDocuments : Members → Type 0
  AreDocuments members_nil = Unit {0}
  AreDocuments (members_cons key value m) = (get key m ≡ none) × IsDocument value × AreDocuments m

abbrev IsDocumentIfAny : Option Value → Type 0
IsDocumentIfAny none = Unit {0}
IsDocumentIfAny (some value) = IsDocument value

documents-IsMap : (m : Members) → AreDocuments m → IsMap m
unfolding AreDocuments
documents-IsMap members_nil h = tt
documents-IsMap (members_cons key value m) (fresh, _, h) = (fresh, documents-IsMap m h)

get-IsDocumentIfAny : (key : Bytes) (m : Members) → AreDocuments m → IsDocumentIfAny (get key m)
unfolding AreDocuments get
get-IsDocumentIfAny key members_nil h = tt
get-IsDocumentIfAny key (members_cons k v m) (_, d, h) = elim (Bool-cases (bytes_eq k key)) [
  | inl same ↦ rw same d
  | inr other ↦ rw other (get-IsDocumentIfAny key m h)
]

get-object_or_empty :
    (key : Bytes) (old : Option Value) → get key (object_or_empty old) ≡ member key old
unfolding object_or_empty get
get-object_or_empty key none = refl
get-object_or_empty key (some null) = refl
get-object_or_empty key (some (boolean b)) = refl
get-object_or_empty key (some (number n)) = refl
get-object_or_empty key (some (string s)) = refl
get-object_or_empty key (some (array vs)) = refl
get-object_or_empty key (some (object m)) = refl

-- A member of what merging an object leaves.
get-merged :
    (key : Bytes) (old : Option Value) (obj : Members) (depth : ActiveDepth)
    → AreDocuments obj
    → get key (apply_object_merge (object_or_empty old) obj depth)
      ≡ effect depth (get key obj) (member key old)
get-merged key old obj depth h =
    get-apply_object_merge (object_or_empty old) obj depth key (documents-IsMap obj h)
    ∙ ap (effect depth (get key obj)) (get-object_or_empty key old)

seen-none : (path : List Bytes) → seen path none ≡ nothing_there
unfolding seen
seen-none [] = refl
seen-none (key ∷ path) = seen-none path

one_less : (n : ℕ) → suc n - 1 ≡ n
one_less n = omega arith

positive : (n : ℕ) → ltb 0 (suc n) ≡ true
positive n = ground arith

-- The effect on one key, seen at the paths below it.
seen-effect :
    (path : List Bytes) (depth : ActiveDepth) (new old : Option Value)
    → IsDocumentIfAny new
    → seen path (effect depth new old) ≡ patched (descend depth) path new old
unfolding effect seen patched descend allows_merge beyond IsDocument
seen-effect [] depth none old h = refl
seen-effect (key ∷ path) depth none old h = refl
seen-effect [] depth (some null) old h = refl
seen-effect (key ∷ path) depth (some null) old h = seen-none path
seen-effect path depth (some (boolean b)) old h = refl
seen-effect path depth (some (number n)) old h = refl
seen-effect path depth (some (string s)) old h = refl
seen-effect path depth (some (array vs)) old h = refl
seen-effect path (bounded zero replace) (some (object obj)) old h = refl
seen-effect path (bounded zero preserve) (some (object obj)) old h = refl
seen-effect path (bounded (suc zero) replace) (some (object obj)) old h = refl
seen-effect path (bounded (suc zero) preserve) (some (object obj)) old h = refl
seen-effect [] (bounded (suc (suc n)) policy) (some (object obj)) old h =
    rw (one_less (suc n), positive n) refl
seen-effect (key ∷ path) (bounded (suc (suc n)) policy) (some (object obj)) old h =
    rw (one_less (suc n), positive n)
      (ap (seen path) (get-merged key old obj (bounded (suc n) policy) h)
        ∙ (seen-effect path (bounded (suc n) policy) (get key obj) (member key old)
              (get-IsDocumentIfAny key obj h)
            ∙ ap (λ k. patched (bounded k policy) path (get key obj) (member key old))
                (one_less n)))
seen-effect [] no_bound (some (object obj)) old h = refl
seen-effect (key ∷ path) no_bound (some (object obj)) old h =
    ap (seen path) (get-merged key old obj no_bound h)
    ∙ seen-effect path no_bound (get key obj) (member key old) (get-IsDocumentIfAny key obj h)

-- For how many levels objects are merged, and what is done with those below.
unfoldable pub merged_levels : MergeDepth → ActiveDepth
merged_levels unbounded = no_bound
merged_levels full_replace = bounded 0 replace
merged_levels (replace_beyond n) = bounded n replace
merged_levels (preserve_beyond n) = bounded n preserve

seen-apply_active :
    (path : List Bytes) (depth : ActiveDepth) (target : Value) (patch : Members)
    → AreDocuments patch
    → seen path (some (apply_active target (object patch) depth))
      ≡ patched depth path (some (object patch)) (some target)
unfolding apply_active seen patched allows_merge beyond descend
seen-apply_active path (bounded zero replace) target patch h = refl
seen-apply_active path (bounded zero preserve) target patch h = refl
seen-apply_active [] (bounded (suc n) policy) target patch h = rw (positive n) refl
seen-apply_active (key ∷ path) (bounded (suc n) policy) target patch h = rw (positive n) (
    ap (seen path) (get-merged key (some target) patch (bounded (suc n) policy) h)
    ∙ (seen-effect path (bounded (suc n) policy) (get key patch) (member key (some target))
          (get-IsDocumentIfAny key patch h)
        ∙ ap (λ k. patched (bounded k policy) path (get key patch) (member key (some target)))
            (one_less n)))
seen-apply_active [] no_bound target patch h = refl
seen-apply_active (key ∷ path) no_bound target patch h =
    ap (seen path) (get-merged key (some target) patch no_bound h)
    ∙ seen-effect path no_bound (get key patch) (member key (some target))
        (get-IsDocumentIfAny key patch h)

-- After a patch object, in which no key stands twice in an object, each path of keys shows what the
-- patch and the document have on that path: where the patch has nothing, what the document had;
-- below a `null` nothing; at any other value that value; and at an object that is merged, an object,
-- whose members are patched by themselves. An object below the levels that are merged replaces what
-- stood there or leaves it alone.
pub seen-apply_merge_patch :
    (path : List Bytes) (depth : MergeDepth) (target : Value) (patch : Members)
    → AreDocuments patch
    → seen path (some (apply_merge_patch target (object patch) depth))
      ≡ patched (merged_levels depth) path (some (object patch)) (some target)
unfolding apply_merge_patch merged_levels patched
seen-apply_merge_patch path unbounded target patch h =
    seen-apply_active path no_bound target patch h
seen-apply_merge_patch path full_replace target patch h = refl
seen-apply_merge_patch path (replace_beyond n) target patch h =
    seen-apply_active path (bounded n replace) target patch h
seen-apply_merge_patch path (preserve_beyond n) target patch h =
    seen-apply_active path (bounded n preserve) target patch h
