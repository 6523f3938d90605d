-- ===== src/Permissions/Flags.antt =====
-- aeordb-lib/src/engine/permissions.rs: links of groups to paths, and their flags. A flag string is
-- the list of its characters.
use aeordb.Prelude.{
  ℕ, zero, suc, ◌<◌, ◌≡◌, refl, ap, Bool, true, false, ◌||◌, Option, none, some, List, [], ◌∷◌,
  length, get_or, ◌==◌, if◌then◌else◌, arith,
}
use aeordb.Bytes.{Bytes}

abbrev pub Chars : Type 0
Chars = List ℕ

-- `c`, `r`, `u`, `d`, `l`, `i`, `f`, `y`.
abbrev pub crudlify_letters : Chars
crudlify_letters = 0x63 ∷ 0x72 ∷ 0x75 ∷ 0x64 ∷ 0x6C ∷ 0x69 ∷ 0x66 ∷ 0x79 ∷ []

pub record PermissionLink : Type 0 where
  pub group : Bytes
  pub allow : Chars
  pub deny : Chars
  pub others_allow : Option Chars
  pub others_deny : Option Chars
  pub path_pattern : Option Bytes

pub record PathPermissions : Type 0 where
  pub links : List PermissionLink

-- The loop over the letters, with the characters at the same positions.
unfoldable pub parse_from : Chars → Chars → List (Option Bool)
parse_from [] chars = []
parse_from (letter ∷ letters) [] = none ∷ parse_from letters []
parse_from (letter ∷ letters) (char ∷ chars) =
    (if char == letter then some true else none) ∷ parse_from letters chars

unfoldable pub parse_crudlify_flags : Chars → List (Option Bool)
parse_crudlify_flags flags = parse_from crudlify_letters flags

-- `flag == Some(true)`
abbrev pub is_set : Option Bool → Bool
is_set (some true) = true
is_set other = false

unfoldable pub merge_flags : List (Option Bool) → List (Option Bool) → List (Option Bool)
merge_flags [] source = []
merge_flags (t ∷ target) [] = t ∷ target
merge_flags (t ∷ target) (s ∷ source) =
    (if is_set s then some true else t) ∷ merge_flags target source

-- Whether the flag of a position is set.
abbrev pub flag_at : List (Option Bool) → ℕ → Bool
flag_at flags index = is_set (get_or flags index none)

pub length-merge_flags :
    (target source : List (Option Bool)) → length (merge_flags target source) ≡ length target
unfolding merge_flags
length-merge_flags [] source = refl
length-merge_flags (t ∷ target) [] = refl
length-merge_flags (t ∷ target) (s ∷ source) = ap suc (length-merge_flags target source)

-- Merging is the union: a flag is set if either side sets it.
pub flag_at-merge_flags :
    (target source : List (Option Bool)) (i : ℕ)
    → i < length target
    → flag_at (merge_flags target source) i ≡ (flag_at target i || flag_at source i)
unfolding merge_flags
flag_at-merge_flags [] source i h = ground arith
flag_at-merge_flags (t ∷ target) [] i h = ground arith
flag_at-merge_flags (t ∷ target) (s ∷ source) zero h = ground arith
flag_at-merge_flags (t ∷ target) (s ∷ source) (suc i) h =
    flag_at-merge_flags target source i (omega arith)
