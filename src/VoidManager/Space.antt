-- ===== src/VoidManager/Space.antt =====
-- The tracked space as a map from offsets to sizes, and what each operation of
-- aeordb-lib/src/engine/void_manager.rs does to it.
use aeordb.Prelude.{
  ℕ, ◌<◌, ◌≤◌, ◌≡◌, ◌+◌, ◌-◌, ◌%◌, ◌^◌, refl, subst, sym, ◌∙◌, Option, none, some, [], ◌∷◌, arith,
  ltb, leb, ◌==◌, if◌then◌else◌, ◌&&◌,
}
use aeordb.Prelude.BTreeMap
use aeordb.Prelude.BTreeMap.{BTreeMap, IsSorted, IsAbove, get-IsAbove, get-insert, get-remove}
use aeordb.Format.HashAlgorithm.{HashAlgorithm, hash_length}
use aeordb.VoidManager.Consistent.{IsConsistent}
use aeordb.VoidManager.Find.{IsBestFit, Found, find_void-Found}
use aeordb.VoidManager.{
  VoidManager, OffsetSet, minimum_void_size, register_void, register_at, insert_void, remove_void,
  remove_at, find_void, find_at, take_from, first_fit, minimum_useful_void_size,
  remove_from_size_index,
}

-- The size of the void at an offset, if one is tracked.
abbrev pub size_at : VoidManager → ℕ → Option ℕ
size_at m offset = BTreeMap.get offset m.by_offset

get-register_at :
    (o s p : ℕ) (m : VoidManager) (found : Option ℕ)
    → size_at m o ≡ found
    → size_at (register_at found o s m) p ≡ (if o == p then some s else size_at m p)
unfolding register_at insert_void
get-register_at o s p m none e = get-insert o p s m.by_offset
get-register_at o s p m (some old) e = ground (arith, get-insert o p s m.by_offset)

-- After a void was registered, its offset has the new size and every other offset the old one;
-- a void below the least size changes nothing.
pub size_at-register_void :
    (o s p : ℕ) (m : VoidManager)
    → size_at (register_void o s m) p
      ≡ (if ltb s minimum_void_size then size_at m p else if o == p then some s else size_at m p)
unfolding register_void
size_at-register_void o s p m = ground (arith, get-register_at o s p m (size_at m o))

-- Removing a void returns the size it had, if any; afterwards its offset has none and every
-- other offset the old one.
pub size_at-remove_void :
    (o p : ℕ) (m : VoidManager)
    → ((remove_void o m).0 ≡ size_at m o)
      × (size_at (remove_void o m).1 p ≡ (if o == p then none else size_at m p))
unfolding remove_void
size_at-remove_void o p m = go (size_at m o) refl
  where
    go :
        (found : Option ℕ)
        → size_at m o ≡ found
        → ((remove_at found o m).0 ≡ found)
          × (size_at (remove_at found o m).1 p ≡ (if o == p then none else size_at m p))
    go none e = ground arith
    go (some s) e = ground (arith, get-remove o p m.by_offset)

-- What is tracked once `needed` bytes are taken from the void of `size` bytes at `offset`.
abbrev pub carved : ℕ → VoidManager → ℕ → ℕ → ℕ → Option ℕ
carved needed m offset size p =
    if leb (minimum_useful_void_size m.hash_algo) (size - needed)
      && ((offset + needed) % 2 ^ 64 == p)
    then some (size - needed)
    else if offset == p
    then none
    else size_at m p

pub minimum_useful_void_size_pos : (a : HashAlgorithm) → 63 ≤ minimum_useful_void_size a
unfolding minimum_useful_void_size hash_length
minimum_useful_void_size_pos a = ground arith

size_at-take_from :
    (needed s p : ℕ) (found : Option OffsetSet) (m : VoidManager) {o t : ℕ} {m' : VoidManager}
    → take_from needed s found m ≡ some ((o, t), m')
    → size_at m' p ≡ carved needed m o t p
unfolding take_from
size_at-take_from needed s p none m e = cc
size_at-take_from needed s p (some []) m e = cc
size_at-take_from needed s p (some ((o, u) ∷ set)) m {o = o'} {t} {m'} e = ground (
  arith,
  minimum_useful_void_size_pos m.hash_algo,
  get-remove o p m.by_offset,
  size_at-register_void ((o + needed) % 2 ^ 64) (s - needed) p (record m {
    by_offset = BTreeMap.remove o m.by_offset;
    by_size = remove_from_size_index s o m.by_size;
  }),
)

size_at-find_at :
    (needed p : ℕ) (size : Option ℕ) (m : VoidManager) {o s : ℕ} {m' : VoidManager}
    → find_at needed size m ≡ some ((o, s), m')
    → size_at m' p ≡ carved needed m o s p
unfolding find_at
size_at-find_at needed p none m e = cc
size_at-find_at needed p (some size) m e = size_at-take_from needed size p _ m e

pub size_at-find_void :
    (needed p : ℕ) (m : VoidManager) {o s : ℕ} {m' : VoidManager}
    → find_void needed m ≡ some ((o, s), m')
    → size_at m' p ≡ carved needed m o s p
unfolding find_void
size_at-find_void needed p m e = size_at-find_at needed p (first_fit needed m.by_size) m e

-- No void reaches into another or past the end of the address space.
pub record IsApart (m : VoidManager) : Type 0 where
  pub within : (p t : ℕ) → size_at m p ≡ some t → p + t < 2 ^ 64
  pub apart : (p t q u : ℕ) → size_at m p ≡ some t → size_at m q ≡ some u → p < q → p + t ≤ q

carved-within :
    (needed o s : ℕ) (m : VoidManager)
    → IsApart m
    → size_at m o ≡ some s
    → needed ≤ s
    → (p t : ℕ) → carved needed m o s p ≡ some t
    → p + t < 2 ^ 64
carved-within needed o s m h tracked fits p t e = ground (arith, h.within p t, h.within o s)

carved-apart :
    (needed o s : ℕ) (m : VoidManager)
    → IsApart m
    → size_at m o ≡ some s
    → needed ≤ s
    → (p t q u : ℕ) → carved needed m o s p ≡ some t
    → carved needed m o s q ≡ some u
    → p < q
    → p + t ≤ q
carved-apart needed o s m h tracked fits p t q u e f lt = ground (
  arith,
  h.within o s,
  h.apart p t q u,
  h.apart o s q u,
  h.apart p t o s,
  h.apart o s p t,
  minimum_useful_void_size_pos m.hash_algo,
)

-- In a consistent tracker whose voids do not overlap, a successful search leaves voids that do
-- not overlap, the part that was split off included.
pub find_void-IsApart :
    (needed : ℕ) (m : VoidManager) {o s : ℕ} {m' : VoidManager}
    → IsConsistent m
    → IsApart m
    → find_void needed m ≡ some ((o, s), m')
    → IsApart m'
find_void-IsApart needed m {o} {s} {m'} c h e =
    let best : IsBestFit needed m o s = (subst (Found needed m) e (find_void-Found needed m c)).0 in
    record {
      within = λ p t g.
          carved-within needed o s m h best.tracked best.fits p t
            (sym (size_at-find_void needed p m e) ∙ g);
      apart = λ p t q u g k lt.
          carved-apart needed o s m h best.tracked best.fits p t q u
            (sym (size_at-find_void needed p m e) ∙ g) (sym (size_at-find_void needed q m e) ∙ k)
            lt;
    }
