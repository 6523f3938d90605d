-- ===== src/RateLimiter/Timestamps.antt =====
-- The map from keys to their instants (`HashMap<String, Vec<Instant>>`).
use aeordb.Prelude.{ℕ, ◌≡◌, refl, Option, none, some, List, [], ◌∷◌, if◌then◌else◌, arith}
use aeordb.Bytes.{Bytes, bytes_eq, bytes_eq_iff}
use aeordb.Strings.{StringMap, get}

abbrev pub Windows : Type 0
Windows = StringMap (List ℕ)

abbrev pub or_empty : Option (List ℕ) → List ℕ
or_empty none = []
or_empty (some ts) = ts

-- `entry(key).or_default()`
abbrev pub windows_of : Bytes → Windows → List ℕ
windows_of key windows = or_empty (get windows key)

unfoldable pub set : Bytes → List ℕ → Windows → Windows
set key ts [] = (key, ts) ∷ []
set key ts ((k, us) ∷ windows) =
    let rest = (k, us) ∷ set key ts windows in if bytes_eq k key then (k, ts) ∷ windows else rest

unfoldable pub remove : Bytes → Windows → Windows
remove key [] = []
remove key ((k, us) ∷ windows) =
    let rest = remove key windows in if bytes_eq k key then rest else (k, us) ∷ rest

pub get-set :
    (key other : Bytes) (ts : List ℕ) (windows : Windows)
    → get (set key ts windows) other ≡ (if bytes_eq key other then some ts else get windows other)
unfolding get set
get-set key other ts [] = refl
get-set key other ts ((k, us) ∷ windows) = ground (
  arith,
  get-set key other ts windows,
  bytes_eq_iff k key,
  bytes_eq_iff key other,
  bytes_eq_iff k other,
)
