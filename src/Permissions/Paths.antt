-- ===== src/Permissions/Paths.antt =====
-- The string operations on paths: trimming and splitting at slashes, and `path_levels` of
-- aeordb-lib/src/engine/permission_resolver.rs. Paths are their bytes.
use aeordb.Prelude.{
  ℕ, zero, suc, ◌-◌, Bool, true, false, ◌&&◌, Option, none, some, List, [], ◌∷◌, ◌++◌, length, take,
  ◌==◌, if◌then◌else◌,
}
use aeordb.Bytes.{Bytes}

abbrev pub slash : ℕ
slash = 0x2F

abbrev pub is_nil : Bytes → Bool
is_nil [] = true
is_nil (b ∷ bs) = false

unfoldable pub trim_start_slashes : Bytes → Bytes
trim_start_slashes [] = []
trim_start_slashes (b ∷ bs) =
    let rest = trim_start_slashes bs in if b == slash then rest else b ∷ bs

unfoldable pub trim_end_slashes : Bytes → Bytes
trim_end_slashes [] = []
trim_end_slashes (b ∷ bs) =
    let rest = trim_end_slashes bs in if b == slash && is_nil rest then [] else b ∷ rest

unfoldable pub starts_with_slash : Bytes → Bool
starts_with_slash [] = false
starts_with_slash (b ∷ bs) = b == slash

unfoldable pub ends_with_slash : Bytes → Bool
ends_with_slash [] = false
ends_with_slash (b ∷ []) = b == slash
ends_with_slash (b ∷ c ∷ bs) = ends_with_slash (c ∷ bs)

-- `split('/')`
split_onto : ℕ → List Bytes → List Bytes
split_onto b [] = (b ∷ []) ∷ []
split_onto b (segment ∷ segments) = (b ∷ segment) ∷ segments

unfoldable pub split : Bytes → List Bytes
unfolding split_onto
split [] = [] ∷ []
split (b ∷ bs) = let rest = split bs in if b == slash then [] ∷ rest else split_onto b rest

-- `rfind('/')`
unfoldable pub rfind_slash : Bytes → Option ℕ
rfind_slash [] = none
rfind_slash (b ∷ bs) = elim (rfind_slash bs) [
  | some i ↦ some (suc i)
  | none ↦ if b == slash then some 0 else none
]

-- `rsplit('/').next()`
unfoldable pub last_segment : Bytes → Bytes
last_segment [] = []
last_segment (b ∷ bs) = elim (rfind_slash bs) [
  | some i ↦ last_segment bs
  | none ↦ if b == slash then bs else b ∷ bs
]

-- The loop that appends a slash and a segment at a time.
unfoldable pub levels_from : Bytes → List Bytes → List Bytes
levels_from current [] = []
levels_from current (segment ∷ segments) =
    let next = current ++ (slash ∷ segment) in next ∷ levels_from next segments

unfoldable pub path_levels : Bytes → List Bytes
path_levels path =
    let trimmed = trim_end_slashes (trim_start_slashes path) in
    let segments = split trimmed in
    let count = if ends_with_slash path then length segments else length segments - 1 in
    if is_nil trimmed
    then (slash ∷ []) ∷ []
    else (slash ∷ []) ∷ levels_from [] (take count segments)

-- `if path.starts_with('/') { path.to_string() } else { format!("/{}", path) }`
unfoldable pub with_leading_slash : Bytes → Bytes
with_leading_slash path = if starts_with_slash path then path else slash ∷ path

-- The parent of the target of a link with a pattern.
unfoldable pub target_parent : Bytes → Bytes
target_parent path =
    let trimmed = trim_end_slashes path in
    elim (rfind_slash trimmed) [
      | none ↦ slash ∷ []
      | some zero ↦ slash ∷ []
      | some (suc i) ↦ take (suc i) trimmed
    ]
