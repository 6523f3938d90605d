-- ===== src/VoidManager/Examples.antt =====
-- The tracker at concrete voids.
use aeordb.Prelude.{◌+◌, ◌≡◌, refl, none, some, [], ◌∷◌, arith}
use aeordb.Prelude.BTreeMap
use aeordb.Format.HashAlgorithm.{blake3_256, hash_length}
use aeordb.VoidManager.{
  VoidManager, register_void, find_void, replace_all, total_void_space, first_fit,
  minimum_useful_void_size, remove_from_size_index, add_to_size_index,
}
use aeordb.VoidManager.Consistent.{IsConsistent, replace_all-IsConsistent}
use aeordb.VoidManager.Find.{Found, find_void-Found}
use aeordb.VoidManager.Space.{IsApart, find_void-IsApart}
use aeordb.VoidManager.Total.{taken, total_void_space-find_void}

abbrev empty : VoidManager
empty = record { by_offset = []; by_size = []; hash_algo = blake3_256 }

abbrev two_voids : VoidManager
two_voids = record {
  by_offset = (1000, 200) ∷ (5000, 100) ∷ [];
  by_size = (100, (5000, tt) ∷ []) ∷ (200, (1000, tt) ∷ []) ∷ [];
  hash_algo = blake3_256;
}

two_voids-eq : replace_all ((5000, 100) ∷ (1000, 200) ∷ []) empty ≡ two_voids
unfolding replace_all register_void add_to_size_index BTreeMap.insert BTreeMap.get
two_voids-eq = refl

two_voids-IsConsistent : IsConsistent two_voids
two_voids-IsConsistent =
    rw two_voids-eq at (replace_all-IsConsistent ((5000, 100) ∷ (1000, 200) ∷ []) empty)

abbrev split_voids : VoidManager
split_voids = record {
  by_offset = (1120, 80) ∷ (5000, 100) ∷ [];
  by_size = (80, (1120, tt) ∷ []) ∷ (100, (5000, tt) ∷ []) ∷ [];
  hash_algo = blake3_256;
}

find_120 : find_void 120 two_voids ≡ some ((1000, 200), split_voids)
unfolding find_void first_fit register_void add_to_size_index remove_from_size_index
    minimum_useful_void_size BTreeMap.insert BTreeMap.get BTreeMap.remove hash_length
find_120 = refl

find_300 : find_void 300 two_voids ≡ none
unfolding find_void first_fit
find_300 = refl

two_voids-IsApart : IsApart two_voids
unfolding BTreeMap.get
two_voids-IsApart = record {
  within = λ p t e. ground arith;
  apart = λ p t q u e f lt. ground arith;
}

find_void-Found_example : Found 120 two_voids (find_void 120 two_voids)
find_void-Found_example = find_void-Found 120 two_voids two_voids-IsConsistent

replace_all-IsConsistent_example :
    IsConsistent (replace_all ((7, 0) ∷ (9, 70) ∷ (9, 71) ∷ []) two_voids)
replace_all-IsConsistent_example =
    replace_all-IsConsistent ((7, 0) ∷ (9, 70) ∷ (9, 71) ∷ []) two_voids

find_void-IsApart_example : IsApart split_voids
find_void-IsApart_example =
    find_void-IsApart 120 two_voids two_voids-IsConsistent two_voids-IsApart find_120

total_void_space-find_void_example :
    total_void_space two_voids ≡ taken 120 two_voids 200 + total_void_space split_voids
total_void_space-find_void_example =
    total_void_space-find_void 120 two_voids two_voids-IsConsistent two_voids-IsApart find_120
