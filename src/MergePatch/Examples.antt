-- ===== src/MergePatch/Examples.antt =====
-- Patches of `{"a": {"b": 1}, "c": 2}`.
use aeordb.Prelude.{◌≡◌, refl, some, [], ◌∷◌, arith}
use aeordb.Bytes.{Bytes, bytes_eq}
use aeordb.MergePatch.Json.{object, number, null, Members, members_nil, members_cons, get}
use aeordb.MergePatch.{unbounded, replace_beyond, preserve_beyond, apply_merge_patch}
use aeordb.MergePatch.Rfc.{rfc_merge, apply_merge_patch-rfc_merge}
use aeordb.MergePatch.Depth.{levels_of, apply_merge_patch-deep}
use aeordb.MergePatch.Paths.{
  number_there, seen, patched, merged_levels, IsDocument, AreDocuments, seen-apply_merge_patch,
}

abbrev key_a : Bytes
key_a = 0x61 ∷ []

abbrev key_b : Bytes
key_b = 0x62 ∷ []

abbrev key_c : Bytes
key_c = 0x63 ∷ []

abbrev document : Members
document =
    members_cons key_a (object (members_cons key_b (number (0x31 ∷ [])) members_nil))
      (members_cons key_c (number (0x32 ∷ [])) members_nil)

-- `{"a": {"b": 3}, "c": null}`
abbrev patch : Members
patch =
    members_cons key_a (object (members_cons key_b (number (0x33 ∷ [])) members_nil))
      (members_cons key_c null members_nil)

apply_merge_patch-rfc_merge_example :
    apply_merge_patch (object document) (object patch) unbounded
    ≡ rfc_merge (some (object document)) (object patch)
apply_merge_patch-rfc_merge_example = apply_merge_patch-rfc_merge (object document) (object patch)

apply_merge_patch-deep_example :
    (apply_merge_patch (object document) (object patch) (replace_beyond 2)
      ≡ apply_merge_patch (object document) (object patch) unbounded)
    × (apply_merge_patch (object document) (object patch) (preserve_beyond 2)
        ≡ apply_merge_patch (object document) (object patch) unbounded)
unfolding levels_of
apply_merge_patch-deep_example = apply_merge_patch-deep (object document) patch 2 (omega arith)

-- `{"a": {"b": {"c": 3}}, "c": null}`
abbrev deep_patch : Members
deep_patch =
    members_cons key_a
      (object (
        members_cons key_b (object (members_cons key_c (number (0x33 ∷ [])) members_nil))
          members_nil))
      (members_cons key_c null members_nil)

deep_patch-AreDocuments : AreDocuments deep_patch
unfolding AreDocuments IsDocument get bytes_eq
deep_patch-AreDocuments = (refl, (refl, (refl, tt, tt), tt), (refl, tt, tt))

-- `a.b` is below the level that is merged, and keeps its value.
seen-apply_merge_patch_example :
    seen
      (key_a ∷ key_b ∷ [])
      (some (apply_merge_patch (object document) (object deep_patch) (preserve_beyond 2)))
    ≡ number_there (0x31 ∷ [])
unfolding merged_levels patched seen get bytes_eq
seen-apply_merge_patch_example =
    seen-apply_merge_patch (key_a ∷ key_b ∷ []) (preserve_beyond 2) (object document) deep_patch
      deep_patch-AreDocuments
