-- ===== src/Permissions/Opinions.antt =====
-- About one level of the walk in `check_direct_permission` of
-- aeordb-lib/src/engine/permission_resolver.rs: its opinion on one operation.
use aeordb.Prelude.{
  ℕ, zero, suc, ◌<◌, ◌≡◌, refl, ap, ◌∙◌, Bool, Bool-cases, inl, inr, true, false, ◌&&◌, ◌||◌,
  Option, none, some, List, [], ◌∷◌, length, get_or, replicate, if◌then◌else◌, arith,
}
use aeordb.Bytes.{Bytes}
use aeordb.Strings.{contains}
use aeordb.Permissions.Flags.{
  Chars, PermissionLink, PathPermissions, parse_crudlify_flags, flag_at, length-merge_flags,
  flag_at-merge_flags,
}
use aeordb.Permissions.Resolver.{
  CrudlifyOp, index_of, link_applies, LevelFlags, merge_some, link_step, links_flags, rest_of,
  apply_level, no_flags, level_state,
}

-- Whether a flag string sets the flag of an operation.
abbrev pub mentions : Chars → CrudlifyOp → Bool
mentions flags op = flag_at (parse_crudlify_flags flags) (index_of op)

abbrev pub mentions_some : Option Chars → CrudlifyOp → Bool
mentions_some none op = false
mentions_some (some flags) op = mentions flags op

-- Whether one link allows or denies an operation to the members of some groups.
pub link_allows : List Bytes → Bytes → Bytes → CrudlifyOp → PermissionLink → Bool
link_allows groups path level op link =
    link_applies link path level
    && (if contains groups link.group
        then mentions link.allow op
        else mentions_some link.others_allow op)

pub link_denies : List Bytes → Bytes → Bytes → CrudlifyOp → PermissionLink → Bool
link_denies groups path level op link =
    link_applies link path level
    && (if contains groups link.group
        then mentions link.deny op
        else mentions_some link.others_deny op)

pub any_link : (PermissionLink → Bool) → List PermissionLink → Bool
any_link test [] = false
any_link test (link ∷ links) = test link || any_link test links

-- The opinion of a level on an operation.
pub opinion : List Bytes → Bytes → CrudlifyOp → Bytes → Option PathPermissions → Option Bool
opinion groups path op level none = none
opinion groups path op level (some p) =
    if any_link (link_denies groups path level op) p.links
    then some false
    else if any_link (link_allows groups path level op) p.links
    then some true
    else none

get_or-apply_level :
    (a d : List (Option Bool)) (state : List Bool) (i : ℕ)
    → i < length state
    → get_or (apply_level a d state) i false
      ≡ (if flag_at d i then false else if flag_at a i then true else get_or state i false)
unfolding apply_level
get_or-apply_level a d [] i h = ground arith
get_or-apply_level [] [] (s ∷ state) zero h = refl
get_or-apply_level [] (y ∷ d) (s ∷ state) zero h = refl
get_or-apply_level (x ∷ a) [] (s ∷ state) zero h = refl
get_or-apply_level (x ∷ a) (y ∷ d) (s ∷ state) zero h = refl
get_or-apply_level [] [] (s ∷ state) (suc i) h = get_or-apply_level [] [] state i (omega arith)
get_or-apply_level [] (y ∷ d) (s ∷ state) (suc i) h = get_or-apply_level [] d state i (omega arith)
get_or-apply_level (x ∷ a) [] (s ∷ state) (suc i) h = get_or-apply_level a [] state i (omega arith)
get_or-apply_level (x ∷ a) (y ∷ d) (s ∷ state) (suc i) h =
    get_or-apply_level a d state i (omega arith)

length-apply_level :
    (a d : List (Option Bool)) (state : List Bool) → length (apply_level a d state) ≡ length state
unfolding apply_level
length-apply_level a d [] = refl
length-apply_level a d (s ∷ state) = ap suc (length-apply_level (rest_of a) (rest_of d) state)

-- The arrays have eight positions.
record IsEight (f : LevelFlags) : Type 0 where
  allow_eight : length f.level_allow ≡ 8
  deny_eight : length f.level_deny ≡ 8

index_of-lt : (op : CrudlifyOp) → index_of op < 8
index_of-lt op = ground arith

merge_some-flag :
    (target : List (Option Bool)) (flags : Option Chars) (op : CrudlifyOp)
    → length target ≡ 8
    → (length (merge_some target flags) ≡ 8)
      × (flag_at (merge_some target flags) (index_of op)
          ≡ (flag_at target (index_of op) || mentions_some flags op))
merge_some-flag target none op h = (h, ground arith)
merge_some-flag target (some flags) op h =
    let parsed = parse_crudlify_flags flags in
    (
      length-merge_flags target parsed ∙ h,
      flag_at-merge_flags target parsed (index_of op) (omega (arith, index_of-lt op)),
    )

or_assoc : (a b c : Bool) → ((a || b) || c) ≡ (a || (b || c))
or_assoc a b c = ground arith

no_flag : (op : CrudlifyOp) → flag_at (replicate 8 none) (index_of op) ≡ false
no_flag op = ground arith

-- What a list of links adds to the two flags of an operation.
record Adds (op : CrudlifyOp) (f f' : LevelFlags) (allowed denied : Bool) : Type 0 where
  eight : IsEight f'
  allow_added :
      flag_at f'.level_allow (index_of op) ≡ (flag_at f.level_allow (index_of op) || allowed)
  deny_added : flag_at f'.level_deny (index_of op) ≡ (flag_at f.level_deny (index_of op) || denied)

link_step-Adds :
    (groups : List Bytes) (path level : Bytes) (op : CrudlifyOp) (link : PermissionLink)
    (f : LevelFlags)
    → IsEight f
    → Adds op f
        (link_step groups path level link f)
        (link_allows groups path level op link)
        (link_denies groups path level op link)
unfolding link_step link_allows link_denies
link_step-Adds groups path level op link f e = elim (Bool-cases (link_applies link path level)) [
  | inr skipped ↦
      rw skipped (record { eight = e; allow_added = ground arith; deny_added = ground arith })
  | inl applies ↦ elim (Bool-cases (contains groups link.group)) [
    | inl member ↦
        let (la, fa) = merge_some-flag f.level_allow (some link.allow) op e.allow_eight in
        let (ld, fd) = merge_some-flag f.level_deny (some link.deny) op e.deny_eight in
        rw (applies, member)
          (record {
            eight = record { allow_eight = la; deny_eight = ld };
            allow_added = fa;
            deny_added = fd;
          })
    | inr other ↦
        let (la, fa) = merge_some-flag f.level_allow link.others_allow op e.allow_eight in
        let (ld, fd) = merge_some-flag f.level_deny link.others_deny op e.deny_eight in
        rw (applies, other)
          (record {
            eight = record { allow_eight = la; deny_eight = ld };
            allow_added = fa;
            deny_added = fd;
          })
  ]
]

links_flags-Adds :
    (groups : List Bytes) (path level : Bytes) (op : CrudlifyOp) (links : List PermissionLink)
    (f : LevelFlags)
    → IsEight f
    → Adds op f
        (links_flags groups path level links f)
        (any_link (link_allows groups path level op) links)
        (any_link (link_denies groups path level op) links)
unfolding links_flags any_link
links_flags-Adds groups path level op [] f e = record {
  eight = e;
  allow_added = ground arith;
  deny_added = ground arith;
}
links_flags-Adds groups path level op (link ∷ links) f e =
    let first = link_step-Adds groups path level op link f e in
    let later =
      links_flags-Adds groups path level op links (link_step groups path level link f)
        first.eight in
    record {
      eight = later.eight;
      allow_added =
          later.allow_added
          ∙ (rw first.allow_added (
              or_assoc (flag_at f.level_allow (index_of op)) (link_allows groups path level op link)
                (any_link (link_allows groups path level op) links)));
      deny_added =
          later.deny_added
          ∙ (rw first.deny_added (
              or_assoc (flag_at f.level_deny (index_of op)) (link_denies groups path level op link)
                (any_link (link_denies groups path level op) links)));
    }

-- A level changes the state of an operation to its opinion, if it has one.
pub level_state-opinion :
    (groups : List Bytes) (path level : Bytes) (op : CrudlifyOp) (p : Option PathPermissions)
    (state : List Bool)
    → length state ≡ 8
    → (length (level_state groups path level p state) ≡ 8)
      × (get_or (level_state groups path level p state) (index_of op) false
          ≡ elim (opinion groups path op level p) [
            | none ↦ get_or state (index_of op) false
            | some b ↦ b
          ])
unfolding level_state opinion
level_state-opinion groups path level op none state h = (h, refl)
level_state-opinion groups path level op (some p) state h =
    let f = links_flags groups path level p.links no_flags in
    let adds =
      links_flags-Adds groups path level op p.links no_flags
        (record { allow_eight = refl; deny_eight = refl }) in
    let at =
      get_or-apply_level f.level_allow f.level_deny state (index_of op)
        (omega (arith, index_of-lt op)) in
    (
      length-apply_level f.level_allow f.level_deny state ∙ h,
      ground (arith, at, adds.allow_added, adds.deny_added, no_flag op),
    )
