-- ===== src/VoidManager/Index.antt =====
-- What the size index of aeordb-lib/src/engine/void_manager.rs lists, and the steps that change
-- it.
use aeordb.Prelude.{
  ℕ, refl, [], ◌≡◌, Bool, true, false, Option, none, some, arith, Option-cases, inl, inr, ◌==◌,
  is_some, if◌then◌else◌,
}
use aeordb.Prelude.BTreeMap
use aeordb.Prelude.BTreeMap.{
  BTreeMap, is_empty, IsSorted, get-nil, get-insert, get-remove, is_empty-get,
}
use aeordb.VoidManager.{OffsetSet, remove_from_size_index, add_to_size_index, or_default}

in_set : Option OffsetSet → ℕ → Bool
in_set none offset = false
in_set (some set) offset = is_some (BTreeMap.get offset set)

-- The void at `offset` stands in the set of its size.
pub listed : ℕ → ℕ → BTreeMap OffsetSet → Bool
unfolding in_set
listed size offset by_size = in_set (BTreeMap.get size by_size) offset

pub listed-add_to_size_index :
    (s o : ℕ) (b : BTreeMap OffsetSet) (t p : ℕ)
    → listed t p (add_to_size_index s o b)
      ≡ (if s == t then (if o == p then true else listed t p b) else listed t p b)
unfolding listed add_to_size_index or_default
listed-add_to_size_index s o b t p = ground (
  arith,
  get-insert s t (BTreeMap.insert o tt (or_default (BTreeMap.get s b))) b,
  get-insert o p tt (or_default (BTreeMap.get s b)),
  get-nil {V = Unit {0}} p,
)

pub listed-remove_from_size_index :
    (s o : ℕ) (b : BTreeMap OffsetSet) (t p : ℕ)
    → listed t p (remove_from_size_index s o b)
      ≡ (if s == t then (if o == p then false else listed t p b) else listed t p b)
unfolding listed remove_from_size_index
listed-remove_from_size_index s o b t p = elim (Option-cases (BTreeMap.get s b)) [
  | inl e ↦ ground (arith, e)
  | inr (set, e) ↦ ground (
    arith,
    e,
    get-insert s t (BTreeMap.remove o set) b,
    get-remove s t b,
    get-remove o p set,
    is_empty-get (BTreeMap.remove o set) p,
  )
]

pub listed-nil : (s o : ℕ) → listed s o [] ≡ false
unfolding listed BTreeMap.get
listed-nil s o = refl

in_set-set :
    (found : Option OffsetSet) (o : ℕ)
    → in_set found o ≡ true
    → (set : OffsetSet) × (found ≡ some set) × (is_some (BTreeMap.get o set) ≡ true)
unfolding in_set
in_set-set none o h = cc
in_set-set (some set) o h = (set, refl, h)

pub listed-set :
    (s o : ℕ) (b : BTreeMap OffsetSet)
    → listed s o b ≡ true
    → (set : OffsetSet) × (BTreeMap.get s b ≡ some set) × (is_some (BTreeMap.get o set) ≡ true)
unfolding listed
listed-set s o b h = in_set-set (BTreeMap.get s b) o h

pub set-listed :
    (s o : ℕ) (b : BTreeMap OffsetSet) (set : OffsetSet)
    → BTreeMap.get s b ≡ some set
    → listed s o b ≡ is_some (BTreeMap.get o set)
unfolding listed in_set
set-listed s o b set e = rw e
