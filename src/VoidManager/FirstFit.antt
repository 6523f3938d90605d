-- ===== src/VoidManager/FirstFit.antt =====
-- The search of the size index: the smallest size that is large enough and has an offset.
use aeordb.Prelude.{
  ℕ, ◌<◌, ◌≤◌, ◌≡◌, false, none, some, [], ◌∷◌, arith, leb, Bool-cases, inl, inr, ◌&&◌, not,
}
use aeordb.Prelude.BTreeMap
use aeordb.Prelude.BTreeMap.{BTreeMap, is_empty, IsSorted, IsAbove-get}
use aeordb.VoidManager.{OffsetSet, first_fit}

pub record IsFirstFit (needed size : ℕ) (b : BTreeMap OffsetSet) : Type 0 where
  pub fits : needed ≤ size
  pub set : OffsetSet
  pub found : BTreeMap.get size b ≡ some set
  pub nonempty : is_empty set ≡ false
  pub least :
      (t : ℕ) (other : OffsetSet)
      → BTreeMap.get t b ≡ some other
      → is_empty other ≡ false
      → needed ≤ t
      → size ≤ t

pub first_fit-some :
    (needed size : ℕ) (b : BTreeMap OffsetSet)
    → IsSorted b
    → first_fit needed b ≡ some size
    → IsFirstFit needed size b
unfolding first_fit BTreeMap.get
first_fit-some needed size [] sorted e = cc
first_fit-some needed size ((k, set) ∷ rest) (above, sorted) e =
    elim (Bool-cases (leb needed k && not (is_empty set))) [
      | inl here ↦ record {
        fits = ground arith;
        set = set;
        found = ground arith;
        nonempty = ground arith;
        least = λ t other g n h. ground (arith, IsAbove-get k t other rest above);
      }
      | inr there ↦
          let r = first_fit-some needed size rest sorted (rw there at e) in
          record {
            fits = r.fits;
            set = r.set;
            found = ground (arith, r.found, IsAbove-get k size r.set rest above);
            nonempty = r.nonempty;
            least = λ t other g n h. ground (arith, r.least t other);
          }
    ]

pub first_fit-none :
    (needed : ℕ) (b : BTreeMap OffsetSet) (t : ℕ) (other : OffsetSet)
    → first_fit needed b ≡ none
    → BTreeMap.get t b ≡ some other
    → is_empty other ≡ false
    → t < needed
unfolding first_fit BTreeMap.get
first_fit-none needed [] t other e g n = cc
first_fit-none needed ((k, set) ∷ rest) t other e g n =
    ground (arith, first_fit-none needed rest t other)
