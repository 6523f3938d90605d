-- ===== src/Permissions/KeyFlags.antt =====
-- The flags of an API key (api_key_rules.rs) beside the flags of a permission link
-- (permissions.rs).
use aeordb.Prelude.{ℕ, zero, suc, All, ◌≡◌, refl, true, false, [], ◌∷◌, get_elem?, ◌==◌, arith}
use aeordb.Permissions.Flags.{Chars, parse_crudlify_flags, parse_from, flag_at}
use aeordb.Permissions.Resolver.{
  CrudlifyOp, create, read, update, delete, list, invoke, configure, deploy, index_of,
}
use aeordb.Permissions.KeyRules.{
  no_flag_char, flag_chars, expected_chars, validate_flags, is_enabled, flag_index,
  check_operation_permitted, operation_to_flag_char,
}

-- Configuring and deploying exchanged.
abbrev pub exchanged : CrudlifyOp → CrudlifyOp
exchanged configure = deploy
exchanged deploy = configure
exchanged op = op

-- At each position a valid flag is enabled exactly if it is the letter that is parsed there, as no
-- letter is the dash.
enabled-parse_from :
    (letters flags : Chars) (i : ℕ)
    → All (λ letter. (letter == no_flag_char) ≡ false) letters
    → expected_chars letters flags ≡ true
    → is_enabled (get_elem? flags i) ≡ flag_at (parse_from letters flags) i
unfolding expected_chars parse_from
enabled-parse_from [] [] i dashless h = refl
enabled-parse_from [] (c ∷ flags) i dashless h = cc
enabled-parse_from (l ∷ letters) [] zero dashless h = refl
enabled-parse_from (l ∷ letters) [] (suc i) (d, dashless) h =
    enabled-parse_from letters [] i dashless refl
enabled-parse_from (l ∷ letters) (c ∷ flags) zero (d, dashless) h = ground arith
enabled-parse_from (l ∷ letters) (c ∷ flags) (suc i) (d, dashless) h =
    enabled-parse_from letters flags i dashless (ground arith)

valid_at :
    (flags : Chars) (i : ℕ)
    → validate_flags flags ≡ true
    → is_enabled (get_elem? flags i) ≡ flag_at (parse_crudlify_flags flags) i
unfolding validate_flags parse_crudlify_flags
valid_at flags i h =
    let expected : expected_chars flag_chars flags ≡ true = ground arith in
    enabled-parse_from flag_chars flags i
      (refl, (refl, (refl, (refl, (refl, (refl, (refl, (refl, tt)))))))) expected

-- For a valid flag string an API key permits an operation exactly if a permission link with the same
-- string mentions it, but that configuring and deploying are exchanged.
pub check_operation_permitted-flags :
    (flags : Chars) (op : CrudlifyOp)
    → validate_flags flags ≡ true
    → check_operation_permitted flags (operation_to_flag_char op)
      ≡ flag_at (parse_crudlify_flags flags) (index_of (exchanged op))
unfolding check_operation_permitted operation_to_flag_char flag_index
check_operation_permitted-flags flags create h = valid_at flags 0 h
check_operation_permitted-flags flags read h = valid_at flags 1 h
check_operation_permitted-flags flags update h = valid_at flags 2 h
check_operation_permitted-flags flags delete h = valid_at flags 3 h
check_operation_permitted-flags flags list h = valid_at flags 4 h
check_operation_permitted-flags flags invoke h = valid_at flags 5 h
check_operation_permitted-flags flags configure h = valid_at flags 7 h
check_operation_permitted-flags flags deploy h = valid_at flags 6 h
