-- ===== src/PathUtils.antt =====
-- aeordb-lib/src/engine/path_utils.rs. A path is the list of its characters.
pub mod Segments
mod Examples
use aeordb.Prelude.{
  ℕ, Bool, true, false, not, ◌&&◌, ◌||◌, leb, List, [], ◌∷◌, ◌++◌, ◌+◌, keep, take, drop, Option,
  none, some, ◌==◌, if◌then◌else◌,
}

abbrev pub Chars : Type 0
Chars = List ℕ

abbrev pub is_nil {ℓ} : {A : Type ℓ} → List A → Bool
is_nil [] = true
is_nil (c ∷ cs) = false

abbrev pub slash : ℕ
slash = 0x2F

-- `char::is_whitespace`.
unfoldable pub is_whitespace : ℕ → Bool
is_whitespace c =
    (leb 0x09 c && leb c 0x0D)
    || ((c == 0x20)
        || ((c == 0x85)
            || ((c == 0xA0)
                || ((c == 0x1680)
                    || ((leb 0x2000 c && leb c 0x200A)
                        || ((c == 0x2028)
                            || ((c == 0x2029)
                                || ((c == 0x202F) || ((c == 0x205F) || (c == 0x3000))))))))))

unfoldable pub trim_start : Chars → Chars
trim_start [] = []
trim_start (c ∷ cs) = let rest = trim_start cs in if is_whitespace c then rest else c ∷ cs

unfoldable pub trim_end : Chars → Chars
trim_end [] = []
trim_end (c ∷ cs) =
    let rest = trim_end cs in if is_whitespace c && is_nil rest then [] else c ∷ rest

abbrev pub trim : Chars → Chars
trim path = trim_end (trim_start path)

-- `split('/')`
split_onto : ℕ → List Chars → List Chars
split_onto c [] = (c ∷ []) ∷ []
split_onto c (segment ∷ segments) = (c ∷ segment) ∷ segments

unfoldable pub split : Chars → List Chars
unfolding split_onto
split [] = [] ∷ []
split (c ∷ cs) = let rest = split cs in if c == slash then [] ∷ rest else split_onto c rest

unfoldable pub is_dot : Chars → Bool
is_dot (c ∷ []) = c == 0x2E
is_dot other = false

unfoldable pub is_dot_dot : Chars → Bool
is_dot_dot (c ∷ d ∷ []) = (c == 0x2E) && (d == 0x2E)
is_dot_dot other = false

-- `Vec::pop`
unfoldable pub pop : List Chars → List Chars
pop [] = []
pop (s ∷ []) = []
pop (s ∷ t ∷ segments) = s ∷ pop (t ∷ segments)

-- The loop of `normalize_path`, whose empty segments are filtered out before it.
unfoldable pub resolve : List Chars → List Chars → List Chars
resolve segments [] = segments
resolve segments (s ∷ later) =
    let next =
      if is_dot s then segments else if is_dot_dot s then pop segments else segments ++ (s ∷ []) in
    resolve next later

-- `join("/")`, with a slash before each segment.
unfoldable pub with_slashes : List Chars → Chars
with_slashes [] = []
with_slashes (s ∷ segments) = slash ∷ (s ++ with_slashes segments)

-- The end of `normalize_path`: `/` alone, or `/` and the joined segments.
unfoldable pub joined : List Chars → Chars
joined segments = if is_nil segments then slash ∷ [] else with_slashes segments

unfoldable pub without_nul : Chars → Chars
without_nul path = keep (λ c. not (c == 0)) path

unfoldable pub normalize_path : Chars → Chars
normalize_path path =
    let trimmed = trim (without_nul path) in
    if is_nil trimmed
    then slash ∷ []
    else joined (resolve [] (keep (λ s. not (is_nil s)) (split trimmed)))

-- The loop of `path_segments`.
unfoldable pub segments_from : List Chars → List Chars → List Chars
segments_from segments [] = segments
segments_from segments (s ∷ later) =
    let next =
      if is_nil s || is_dot s
      then segments
      else if is_dot_dot s
      then pop segments
      else segments ++ (s ∷ []) in
    segments_from next later

unfoldable pub path_segments : Chars → List Chars
path_segments path = segments_from [] (split (trim path))

-- `rfind('/')`
found_after : ℕ → Option ℕ → Option ℕ
found_after c (some index) = some (1 + index)
found_after c none = if c == slash then some 0 else none

unfoldable pub last_slash : Chars → Option ℕ
unfolding found_after
last_slash [] = none
last_slash (c ∷ cs) = found_after c (last_slash cs)

-- The test for the path `/`.
unfoldable pub is_root_path : Chars → Bool
is_root_path (c ∷ []) = c == slash
is_root_path other = false

-- The final match of `parent_path`.
unfoldable pub parent_at : Chars → Option ℕ → Option Chars
parent_at normalized (some index) =
    if index == 0 then some (slash ∷ []) else some (take index normalized)
parent_at normalized none = none

unfoldable pub parent_path : Chars → Option Chars
parent_path path =
    let normalized = normalize_path path in
    if is_root_path normalized then none else parent_at normalized (last_slash normalized)

-- `trim_end_matches('/')`
unfoldable pub without_end_slashes : Chars → Chars
without_end_slashes [] = []
without_end_slashes (c ∷ cs) =
    let rest = without_end_slashes cs in if c == slash && is_nil rest then [] else c ∷ rest

-- The final match of `file_name`.
unfoldable pub name_after : Chars → Option ℕ → Option Chars
name_after trimmed (some index) =
    let name = drop (index + 1) trimmed in if is_nil name then none else some name
name_after trimmed none = some trimmed

unfoldable pub file_name : Chars → Option Chars
file_name path =
    let trimmed = without_end_slashes (trim path) in
    if is_nil trimmed || is_root_path trimmed then none else name_after trimmed (last_slash trimmed)
