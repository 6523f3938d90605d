-- ===== src/PathUtils/Examples.antt =====
-- The path `/a/./b/../c/`.
use aeordb.Prelude.{◌≡◌, refl, [], ◌∷◌, keep, none, some}
use aeordb.PathUtils.{
  Chars, joined, without_nul, normalize_path, path_segments, parent_path, file_name, last_slash,
  parent_at, name_after, without_end_slashes, with_slashes, resolve, pop, is_dot, is_dot_dot,
  is_root_path, trim_start, trim_end, is_whitespace, split,
}
use aeordb.PathUtils.Segments.{normalize_path-path_segments}

abbrev winding : Chars
winding = 0x2F ∷ 0x61 ∷ 0x2F ∷ 0x2E ∷ 0x2F ∷ 0x62 ∷ 0x2F ∷ 0x2E ∷ 0x2E ∷ 0x2F ∷ 0x63 ∷ 0x2F ∷ []

normalize_path-path_segments_example :
    normalize_path winding ≡ joined (path_segments (without_nul winding))
normalize_path-path_segments_example = normalize_path-path_segments winding

winding_parent : parent_path winding ≡ some (0x2F ∷ 0x61 ∷ [])
unfolding parent_path last_slash parent_at normalize_path joined with_slashes resolve pop is_dot
    is_dot_dot is_root_path without_nul trim_start trim_end is_whitespace split keep
winding_parent = refl

empty_parent : parent_path [] ≡ none
unfolding parent_path last_slash parent_at normalize_path joined is_root_path without_nul trim_start
    trim_end keep
empty_parent = refl

winding_name : file_name winding ≡ some (0x63 ∷ [])
unfolding file_name last_slash name_after without_end_slashes trim_start trim_end is_whitespace
    is_root_path
winding_name = refl
