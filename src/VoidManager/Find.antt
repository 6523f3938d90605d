-- ===== src/VoidManager/Find.antt =====
-- About `find_void` of aeordb-lib/src/engine/void_manager.rs.
use aeordb.Prelude.{
  ℕ, ◌<◌, ◌≤◌, ◌≡◌, ◌-◌, refl, sym, ◌∙◌, is_some, true, false, Option, none, some, [], ◌∷◌, arith,
  leb, Bool-cases, inl, inr,
}
use aeordb.Prelude.BTreeMap
use aeordb.Prelude.BTreeMap.{BTreeMap, is_empty, IsSorted, IsAbove-get, get-IsAbove}
use aeordb.VoidManager.{
  OffsetSet, VoidManager, find_void, find_at, take_from, first_fit, minimum_useful_void_size,
}
use aeordb.VoidManager.Index.{listed-set, set-listed}
use aeordb.VoidManager.Consistent.{
  IsConsistent, is_size, forget-IsConsistent, register_void-IsConsistent,
}
use aeordb.VoidManager.FirstFit.{IsFirstFit, first_fit-some, first_fit-none}

-- The tracked void at `offset` is the smallest that holds `needed` bytes, and of these the first.
pub record IsBestFit (needed : ℕ) (m : VoidManager) (offset size : ℕ) : Type 0 where
  pub tracked : BTreeMap.get offset m.by_offset ≡ some size
  pub fits : needed ≤ size
  pub smallest : (p t : ℕ) → BTreeMap.get p m.by_offset ≡ some t → needed ≤ t → size ≤ t
  pub first : (p : ℕ) → BTreeMap.get p m.by_offset ≡ some size → offset ≤ p

is_size-eq : (o : Option ℕ) (s : ℕ) → is_size o s ≡ true → o ≡ some s
is_size-eq none s h = cc
is_size-eq (some t) s h = ground arith

head-le :
    (o p : ℕ) (u : Unit {0}) (set : OffsetSet)
    → IsSorted ((o, u) ∷ set)
    → is_some (BTreeMap.get p ((o, u) ∷ set)) ≡ true
    → o ≤ p
unfolding BTreeMap.get
head-le o p u set (above, sorted) h = ground (arith, get-IsAbove o p set above)

module _ (m : VoidManager) (c : IsConsistent m) where
  -- A tracked void stands in the set of its size, which is not empty.
  tracked-set :
      (p t : ℕ)
      → BTreeMap.get p m.by_offset ≡ some t
      → (set : OffsetSet) × (BTreeMap.get t m.by_size ≡ some set)
        × (is_some (BTreeMap.get p set) ≡ true)
        × (is_empty set ≡ false)
  tracked-set p t e =
      let (set, g, h) = listed-set t p m.by_size (ground (arith, c.agree t p)) in
      (set, g, h, (c.sets_proper t set g).1)

  set-tracked :
      (s o : ℕ) (set : OffsetSet)
      → BTreeMap.get s m.by_size ≡ some set
      → is_some (BTreeMap.get o set) ≡ true
      → BTreeMap.get o m.by_offset ≡ some s
  set-tracked s o set g h = is_size-eq _ s (sym (c.agree s o) ∙ set-listed s o m.by_size set g ∙ h)

  IsFirstFit-IsBestFit :
      (needed s o : ℕ) (u : Unit {0}) (set : OffsetSet)
      → IsFirstFit needed s m.by_size
      → BTreeMap.get s m.by_size ≡ some ((o, u) ∷ set)
      → IsBestFit needed m o s
  unfolding BTreeMap.get
  IsFirstFit-IsBestFit needed s o u set fit g = record {
    tracked = set-tracked s o ((o, u) ∷ set) g (ground arith);
    fits = fit.fits;
    smallest = λ p t e n. let (other, h, i, j) = tracked-set p t e in fit.least t other h j n;
    first = λ p e.
        let (other, h, i, j) = tracked-set p s e in
        head-le o p u set (c.sets_proper s _ g).0
          (sym (set-listed s p m.by_size _ g) ∙ set-listed s p m.by_size other h ∙ i);
  }

abbrev pub Found : ℕ → VoidManager → Option ((ℕ × ℕ) × VoidManager) → Type 0
Found needed m none = (p t : ℕ) → BTreeMap.get p m.by_offset ≡ some t → t < needed
Found needed m (some ((o, s), m')) = IsBestFit needed m o s × IsConsistent m'

take_from-Found :
    (needed s : ℕ) (found : Option OffsetSet) (m : VoidManager)
    → IsConsistent m
    → IsFirstFit needed s m.by_size
    → BTreeMap.get s m.by_size ≡ found
    → Found needed m (take_from needed s found m)
unfolding take_from
take_from-Found needed s none m c fit e = cc (fit.found)
take_from-Found needed s (some []) m c fit e = cc (fit.found, fit.nonempty)
take_from-Found needed s (some ((o, u) ∷ set)) m c fit e =
    let best = IsFirstFit-IsBestFit m c needed s o u set fit e in
    let c' = forget-IsConsistent o s m best.tracked c in
    elim (Bool-cases (leb (minimum_useful_void_size m.hash_algo) (s - needed))) [
      | inl split ↦ rw split (best, register_void-IsConsistent _ _ _ c')
      | inr whole ↦ rw whole (best, c')
    ]

find_at-Found :
    (needed : ℕ) (size : Option ℕ) (m : VoidManager)
    → IsConsistent m
    → first_fit needed m.by_size ≡ size
    → Found needed m (find_at needed size m)
unfolding find_at
find_at-Found needed none m c e = λ p t g.
    let (set, h, i, j) = tracked-set m c p t g in first_fit-none needed m.by_size t set e h j
find_at-Found needed (some s) m c e =
    take_from-Found needed s _ m c (first_fit-some needed s m.by_size c.sizes_sorted e) refl

-- In a consistent tracker a search returns the smallest void that holds the bytes asked for,
-- the first of that size by offset, and leaves a consistent tracker; it returns nothing only if
-- no tracked void is large enough.
pub find_void-Found :
    (needed : ℕ) (m : VoidManager) → IsConsistent m → Found needed m (find_void needed m)
unfolding find_void
find_void-Found needed m c = find_at-Found needed _ m c refl
