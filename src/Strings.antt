-- ===== src/Strings.antt =====
-- Strings as their UTF-8 bytes: their order, sets of them in that order (`BTreeSet<String>`), and
-- maps from them (`HashMap<String, V>`).
pub mod Order
pub mod Utf8
use aeordb.Prelude.{
  ℕ, ◌≡◌, Bool, true, false, ◌||◌, Option, none, some, List, [], ◌∷◌, map, arith, ltb, ◌==◌,
  if◌then◌else◌,
}
use aeordb.Bytes.{Bytes, bytes_eq}

-- The lexicographic order of byte slices.
unfoldable pub bytes_lt : Bytes → Bytes → Bool
bytes_lt [] [] = false
bytes_lt [] (b ∷ y) = true
bytes_lt (a ∷ x) [] = false
bytes_lt (a ∷ x) (b ∷ y) = if a == b then bytes_lt x y else ltb a b

unfoldable pub contains : List Bytes → Bytes → Bool
contains [] p = false
contains (q ∷ l) p = bytes_eq q p || contains l p

-- `BTreeSet::insert`.
unfoldable pub insert : Bytes → List Bytes → List Bytes
insert p [] = p ∷ []
insert p (q ∷ l) =
    let rest = q ∷ insert p l in
    if bytes_eq p q then q ∷ l else if bytes_lt p q then p ∷ q ∷ l else rest

unfoldable pub insert_all : List Bytes → List Bytes → List Bytes
insert_all [] set = set
insert_all (p ∷ l) set = insert_all l (insert p set)

abbrev pub StringMap {ℓ} : Type ℓ → Type ℓ
StringMap V = List (Bytes × V)

module _ {ℓ} {V : Type ℓ} where
  unfoldable pub get : StringMap V → Bytes → Option V
  get [] p = none
  get ((q, v) ∷ m) p = if bytes_eq q p then some v else get m p

  unfoldable pub keys : StringMap V → List Bytes
  keys [] = []
  keys ((q, v) ∷ m) = q ∷ keys m
