-- ===== src/MergePatch/Json.antt =====
-- JSON values (`serde_json::Value`), and objects as maps ordered by key.
use aeordb.Prelude.{◌≡◌, refl, Bool, Option, none, some, arith, if◌then◌else◌}
use aeordb.Bytes.{Bytes, bytes_eq, bytes_eq_iff}
use aeordb.Strings.{bytes_lt}

-- A number is its text.
mutual
  pub data Value : Type 0 where
    null : Value
    boolean : Bool → Value
    number string : Bytes → Value
    array : Values → Value
    object : Members → Value

  pub data Values : Type 0 where
    values_nil : Values
    values_cons : Value → Values → Values

  pub data Members : Type 0 where
    members_nil : Members
    members_cons : Bytes → Value → Members → Members

unfoldable pub get : Bytes → Members → Option Value
get key members_nil = none
get key (members_cons k v m) = if bytes_eq k key then some v else get key m

unfoldable pub insert : Bytes → Value → Members → Members
insert key value members_nil = members_cons key value members_nil
insert key value (members_cons k v m) =
    let later = members_cons k v (insert key value m) in
    if bytes_eq k key
    then members_cons key value m
    else if bytes_lt key k
    then members_cons key value (members_cons k v m)
    else later

unfoldable pub remove : Bytes → Members → Members
remove key members_nil = members_nil
remove key (members_cons k v m) =
    let rest = remove key m in if bytes_eq k key then rest else members_cons k v rest

pub get-insert :
    (key other : Bytes) (value : Value) (m : Members)
    → get other (insert key value m) ≡ (if bytes_eq key other then some value else get other m)
unfolding get insert
get-insert key other value members_nil = refl
get-insert key other value (members_cons k v m) = ground (
  arith,
  get-insert key other value m,
  bytes_eq_iff k key,
  bytes_eq_iff key other,
  bytes_eq_iff k other,
)

pub get-remove :
    (key other : Bytes) (m : Members)
    → get other (remove key m) ≡ (if bytes_eq key other then none else get other m)
unfolding get remove
get-remove key other members_nil = ground arith
get-remove key other (members_cons k v m) = ground (
  arith,
  get-remove key other m,
  bytes_eq_iff k key,
  bytes_eq_iff key other,
  bytes_eq_iff k other,
)
