-- ===== src/Permissions/KeyRules.antt =====
-- aeordb-lib/src/engine/api_key_rules.rs: what an API key may do where. A flag string is the list of
-- its characters, and `glob_match` is a parameter. Messages in errors are left out.
use aeordb.Prelude.{
  ℕ, ◌+◌, Bool, true, false, not, ◌&&◌, ◌||◌, ltb, Option, none, some, List, [], ◌∷◌, length, drop,
  get_elem?, ◌==◌, if◌then◌else◌,
}
use aeordb.Bytes.{Bytes, bytes_eq}
use aeordb.Permissions.Flags.{Chars}
use aeordb.Permissions.Paths.{is_nil, trim_end_slashes, starts_with_slash}
use aeordb.Permissions.Grants.{starts_with}
use aeordb.Permissions.Resolver.{
  CrudlifyOp, create, read, update, delete, list, invoke, configure, deploy,
}

pub record KeyRule : Type 0 where
  pub glob : Bytes
  pub permitted : Chars

-- `c`, `r`, `u`, `d`, `l`, `i`, `f`, `y`.
abbrev pub flag_chars : Chars
flag_chars = 0x63 ∷ 0x72 ∷ 0x75 ∷ 0x64 ∷ 0x6C ∷ 0x69 ∷ 0x66 ∷ 0x79 ∷ []

abbrev pub flags_length : ℕ
flags_length = 8

abbrev pub no_flag_char : ℕ
no_flag_char = 0x2D

-- `str::len`, the bytes of the UTF-8 encoding.
abbrev pub char_len : ℕ → ℕ
char_len c = if ltb c 0x80 then 1 else if ltb c 0x800 then 2 else if ltb c 0x10000 then 3 else 4

unfoldable pub byte_len : Chars → ℕ
byte_len [] = 0
byte_len (c ∷ cs) = char_len c + byte_len cs

-- The loop of `validate_flags`, over the characters and what is expected of them.
unfoldable pub expected_chars : Chars → Chars → Bool
expected_chars expected [] = true
expected_chars [] (c ∷ cs) = false
expected_chars (e ∷ expected) (c ∷ cs) =
    let rest = expected_chars expected cs in
    if not (c == e) && not (c == no_flag_char) then false else rest

-- Whether the result is `Ok(())`.
unfoldable pub validate_flags : Chars → Bool
validate_flags flags =
    if not (byte_len flags == flags_length) then false else expected_chars flag_chars flags

abbrev pub max_glob_pattern_length : ℕ
max_glob_pattern_length = 1024

unfoldable pub validate_rules : List KeyRule → Bool
validate_rules [] = true
validate_rules (rule ∷ rules) =
    let rest = validate_rules rules in
    if is_nil rule.glob
    then false
    else if ltb max_glob_pattern_length (length rule.glob)
    then false
    else if not (validate_flags rule.permitted)
    then false
    else rest

unfoldable pub match_rules : (Bytes → Bytes → Bool) → List KeyRule → Bytes → Option KeyRule
match_rules glob_match [] path = none
match_rules glob_match (rule ∷ rules) path =
    if glob_match rule.glob path then some rule else match_rules glob_match rules path

abbrev pub any_glob : Bytes
any_glob = 0x2A ∷ 0x2A ∷ []

-- `trim_end_matches("**")`
unfoldable pub trim_end_stars : Bytes → Bytes
trim_end_stars [] = []
trim_end_stars (b ∷ bs) = trimmed b (trim_end_stars bs)
  where
    -- The rest is trimmed, so only a pair that starts here is left to cut.
    trimmed : ℕ → Bytes → Bytes
    trimmed b (c ∷ []) = if b == 0x2A && (c == 0x2A) then [] else b ∷ c ∷ []
    trimmed b rest = b ∷ rest

abbrev pub rule_target : Bytes → Bytes
rule_target glob = trim_end_slashes (trim_end_stars (trim_end_slashes glob))

-- `target` is `path` or lies below it.
abbrev pub on_path : Bytes → Bytes → Bool
on_path target path =
    starts_with target path
    && ((length target == length path) || starts_with_slash (drop (length path) target))

unfoldable pub is_ancestor_of_any_rule : List KeyRule → Bytes → Bool
is_ancestor_of_any_rule [] path = false
is_ancestor_of_any_rule (rule ∷ rules) path =
    let rest = is_ancestor_of_any_rule rules path in
    if bytes_eq rule.glob any_glob
    then rest
    else if on_path (rule_target rule.glob) (trim_end_slashes path)
    then true
    else rest

unfoldable pub is_item_on_shared_path : (Bytes → Bytes → Bool) → List KeyRule → Bytes → Bool
is_item_on_shared_path glob_match [] item_path = false
is_item_on_shared_path glob_match (rule ∷ rules) item_path =
    let rest = is_item_on_shared_path glob_match rules item_path in
    if bytes_eq rule.glob any_glob
    then rest
    else if glob_match rule.glob item_path
    then true
    else if on_path (rule_target rule.glob) (trim_end_slashes item_path)
    then true
    else rest

-- The position of an operation's letter.
unfoldable pub flag_index : ℕ → Option ℕ
flag_index operation =
    if operation == 0x63
    then some 0
    else if operation == 0x72
    then some 1
    else if operation == 0x75
    then some 2
    else if operation == 0x64
    then some 3
    else if operation == 0x6C
    then some 4
    else if operation == 0x69
    then some 5
    else if operation == 0x66
    then some 6
    else if operation == 0x79
    then some 7
    else none

-- `.map(|ch| ch != '-').unwrap_or(false)`
abbrev pub is_enabled : Option ℕ → Bool
is_enabled none = false
is_enabled (some char) = not (char == no_flag_char)

abbrev pub enabled_at : Chars → Option ℕ → Bool
enabled_at permitted none = false
enabled_at permitted (some index) = is_enabled (get_elem? permitted index)

unfoldable pub check_operation_permitted : Chars → ℕ → Bool
check_operation_permitted permitted operation = enabled_at permitted (flag_index operation)

unfoldable pub operation_to_flag_char : CrudlifyOp → ℕ
operation_to_flag_char create = 0x63
operation_to_flag_char read = 0x72
operation_to_flag_char update = 0x75
operation_to_flag_char delete = 0x64
operation_to_flag_char list = 0x6C
operation_to_flag_char invoke = 0x69
operation_to_flag_char configure = 0x79
operation_to_flag_char deploy = 0x66
