-- ===== src/Prelude/BTreeMap.antt =====
-- Rust's `BTreeMap` with integer keys: the entries in ascending order of their keys. `BTreeSet` is
-- such a map into the type with one element.
use Prim.Native.Nat.{ℕ, ◌≤◌, ◌<◌}
use mathlib.Core.Path.{◌≡◌, refl, subst}
use mathlib.Core.Bool.{Bool, true, false}
use mathlib.Core.List.{List, [], ◌∷◌}
use mathlib.Core.Option.{Option, none, some, some-injective}
use native.Mathlib.Omega.{arith}
use aeordb.Prelude.Tests.{ltb, ◌==◌, if◌then◌else◌}

abbrev pub BTreeMap {ℓ} : Type ℓ → Type ℓ
BTreeMap V = List (ℕ × V)

module _ {ℓ} {V : Type ℓ} where
  unfoldable pub get : ℕ → BTreeMap V → Option V
  get k [] = none
  get k ((j, v) ∷ m) = if j == k then some v else get k m

  unfoldable pub insert : ℕ → V → BTreeMap V → BTreeMap V
  insert k v [] = (k, v) ∷ []
  insert k v ((j, w) ∷ m) =
      let rest = (j, w) ∷ insert k v m in
      if ltb k j then (k, v) ∷ (j, w) ∷ m else if j == k then (k, v) ∷ m else rest

  unfoldable pub remove : ℕ → BTreeMap V → BTreeMap V
  remove k [] = []
  remove k ((j, w) ∷ m) = let rest = remove k m in if j == k then rest else (j, w) ∷ rest

  abbrev pub is_empty : BTreeMap V → Bool
  is_empty [] = true
  is_empty (e ∷ m) = false

  -- Every key of the map is above `k`.
  abbrev pub IsAbove : ℕ → BTreeMap V → Type 0
  IsAbove k [] = Unit {0}
  IsAbove k ((j, w) ∷ m) = (k < j) × IsAbove k m

  abbrev pub IsSorted : BTreeMap V → Type 0
  IsSorted [] = Unit {0}
  IsSorted ((k, v) ∷ m) = IsAbove k m × IsSorted m

  -- Every value that a lookup can give.
  abbrev pub Values {κ} : (V → Type κ) → BTreeMap V → Type (ℓ ⊔ κ)
  Values P m = (k : ℕ) (v : V) → get k m ≡ some v → P v

module _ {ℓ} {V : Type ℓ} where
  pub get-nil : (k : ℕ) → get {V = V} k [] ≡ none
  unfolding get
  get-nil k = refl

  pub get-insert :
      (k j : ℕ) (v : V) (m : BTreeMap V)
      → get j (insert k v m) ≡ (if k == j then some v else get j m)
  unfolding get insert
  get-insert k j v [] = ground arith
  get-insert k j v ((i, w) ∷ m) = ground (arith, get-insert k j v m)

  pub get-remove :
      (k j : ℕ) (m : BTreeMap V) → get j (remove k m) ≡ (if k == j then none else get j m)
  unfolding get remove
  get-remove k j [] = ground arith
  get-remove k j ((i, w) ∷ m) = ground (arith, get-remove k j m)

  pub IsAbove-weaken : (i k : ℕ) (m : BTreeMap V) → i < k → IsAbove k m → IsAbove i m
  IsAbove-weaken i k [] h a = tt
  IsAbove-weaken i k ((j, w) ∷ m) h (p, a) = (omega arith, IsAbove-weaken i k m h a)

  insert-IsAbove :
      (i k : ℕ) (v : V) (m : BTreeMap V) → i < k → IsAbove i m → IsAbove i (insert k v m)
  unfolding insert
  insert-IsAbove i k v [] h a = (h, tt)
  insert-IsAbove i k v ((j, w) ∷ m) h (p, a) = ground (arith, insert-IsAbove i k v m h a)

  pub insert-IsSorted : (k : ℕ) (v : V) (m : BTreeMap V) → IsSorted m → IsSorted (insert k v m)
  unfolding insert
  insert-IsSorted k v [] s = (tt, tt)
  insert-IsSorted k v ((j, w) ∷ m) (a, s) =
      ground (arith, insert-IsSorted k v m s, IsAbove-weaken k j m, insert-IsAbove j k v m)

  remove-IsAbove : (i k : ℕ) (m : BTreeMap V) → IsAbove i m → IsAbove i (remove k m)
  unfolding remove
  remove-IsAbove i k [] a = tt
  remove-IsAbove i k ((j, w) ∷ m) (p, a) = ground (arith, remove-IsAbove i k m a)

  pub remove-IsSorted : (k : ℕ) (m : BTreeMap V) → IsSorted m → IsSorted (remove k m)
  unfolding remove
  remove-IsSorted k [] s = tt
  remove-IsSorted k ((j, w) ∷ m) (a, s) =
      ground (arith, remove-IsSorted k m s, remove-IsAbove j k m a)

  pub get-IsAbove : (i j : ℕ) (m : BTreeMap V) → IsAbove i m → j ≤ i → get j m ≡ none
  unfolding get
  get-IsAbove i j [] a h = refl
  get-IsAbove i j ((k, w) ∷ m) (p, a) h = ground (arith, get-IsAbove i j m a h)

  pub IsAbove-get : (k j : ℕ) (v : V) (m : BTreeMap V) → IsAbove k m → get j m ≡ some v → k < j
  unfolding get
  IsAbove-get k j v [] a e = cc
  IsAbove-get k j v ((i, w) ∷ m) (p, a) e = ground (arith, IsAbove-get k j v m a)

  -- A key below all others is not there to remove.
  pub remove-IsAbove_self : (k : ℕ) (m : BTreeMap V) → IsAbove k m → remove k m ≡ m
  unfolding remove
  remove-IsAbove_self k [] a = refl
  remove-IsAbove_self k ((j, w) ∷ m) (p, a) = ground (arith, remove-IsAbove_self k m a)

  pub is_empty-get : (m : BTreeMap V) (k : ℕ) → is_empty m ≡ true → get k m ≡ none
  is_empty-get [] k h = get-nil k
  is_empty-get (e ∷ m) k h = cc

  pub insert-is_empty : (k : ℕ) (v : V) (m : BTreeMap V) → is_empty (insert k v m) ≡ false
  unfolding insert
  insert-is_empty k v [] = refl
  insert-is_empty k v ((j, w) ∷ m) = ground arith

module _ {ℓ κ} {V : Type ℓ} (P : V → Type κ) where
  if_some :
      (b : Bool) (v w : V) (o : Option V)
      → P v
      → (o ≡ some w → P w)
      → (if b then some v else o) ≡ some w
      → P w
  if_some true v w o p h e = subst P (some-injective v w e) p
  if_some false v w o p h e = h e

  if_none :
      (b : Bool) (w : V) (o : Option V)
      → (o ≡ some w → P w)
      → (if b then none else o) ≡ some w
      → P w
  if_none true w o h e = cc
  if_none false w o h e = h e

  pub insert-Values : (k : ℕ) (v : V) (m : BTreeMap V) → P v → Values P m → Values P (insert k v m)
  insert-Values k v m p h j w e = if_some (k == j) v w (get j m) p (h j w) (rw get-insert at e)

  pub remove-Values : (k : ℕ) (m : BTreeMap V) → Values P m → Values P (remove k m)
  remove-Values k m h j w e = if_none (k == j) w (get j m) (h j w) (rw get-remove at e)
