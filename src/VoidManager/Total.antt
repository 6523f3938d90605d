-- ===== src/VoidManager/Total.antt =====
-- About the total of the tracked space of aeordb-lib/src/engine/void_manager.rs.
use aeordb.Prelude.{
  ℕ, ◌<◌, ◌≤◌, ◌≡◌, ◌+◌, ◌-◌, ◌%◌, ◌^◌, refl, subst, Option, none, some, [], ◌∷◌, arith, leb, ◌==◌,
  if◌then◌else◌, inl, inr, Option-cases,
}
use aeordb.Prelude.BTreeMap
use aeordb.Prelude.BTreeMap.{
  BTreeMap, IsSorted, IsAbove-get, get-insert, get-remove, remove-IsAbove_self,
}
use aeordb.VoidManager.{
  VoidManager, OffsetSet, find_void, find_at, take_from, first_fit, minimum_useful_void_size,
  remove_from_size_index, register_void, register_at, insert_void, sum_sizes, total_void_space,
}
use aeordb.VoidManager.Consistent.{IsConsistent}
use aeordb.VoidManager.Find.{Found, find_void-Found}
use aeordb.VoidManager.Space.{size_at, IsApart, find_void-IsApart, minimum_useful_void_size_pos}

sum_sizes-remove :
    (o s : ℕ) (l : BTreeMap ℕ)
    → IsSorted l
    → BTreeMap.get o l ≡ some s
    → sum_sizes l ≡ s + sum_sizes (BTreeMap.remove o l)
unfolding sum_sizes BTreeMap.get BTreeMap.remove
sum_sizes-remove o s [] sorted e = cc
sum_sizes-remove o s ((k, t) ∷ l) (above, sorted) e =
    ground (arith, sum_sizes-remove o s l sorted, remove-IsAbove_self k l above)

sum_sizes-insert :
    (o s : ℕ) (l : BTreeMap ℕ)
    → BTreeMap.get o l ≡ none
    → sum_sizes (BTreeMap.insert o s l) ≡ s + sum_sizes l
unfolding sum_sizes BTreeMap.get BTreeMap.insert
sum_sizes-insert o s [] e = ground arith
sum_sizes-insert o s ((k, t) ∷ l) e = ground (arith, sum_sizes-insert o s l)

-- In a list whose voids lie apart and above `base`, the sizes add up to what fits above `base`.
sum_sizes-lt :
    (base : ℕ) (l : BTreeMap ℕ)
    → base < 2 ^ 64
    → IsSorted l
    → ((p t : ℕ) → BTreeMap.get p l ≡ some t → (base ≤ p) × (p + t < 2 ^ 64))
    → ((p t q u : ℕ) → BTreeMap.get p l ≡ some t → BTreeMap.get q l ≡ some u → p < q → p + t ≤ q)
    → base + sum_sizes l < 2 ^ 64
unfolding sum_sizes BTreeMap.get
sum_sizes-lt base [] h sorted within apart = omega arith
sum_sizes-lt base ((k, t) ∷ l) h (above, sorted) within apart =
    let here = within k t (ground arith) in
    let rest =
      sum_sizes-lt (k + t) l here.1 sorted
        (λ q u e.
          let lt = IsAbove-get k q u l above e in
          (apart k t q u (ground arith) (ground arith) lt, (within q u (ground arith)).1))
        (λ p t' q u e f lt.
          let a = IsAbove-get k p t' l above e in
          let b = IsAbove-get k q u l above f in apart p t' q u (ground arith) (ground arith) lt) in
    omega arith

pub total_void_space_exact :
    (m : VoidManager) → IsConsistent m → IsApart m → total_void_space m ≡ sum_sizes m.by_offset
unfolding total_void_space
total_void_space_exact m c h =
    let bound =
      sum_sizes-lt 0 m.by_offset (omega arith) c.offsets_sorted
        (λ p t e. (omega arith, h.within p t e)) h.apart in
    omega arith

by_offset-register_at :
    (o s : ℕ) (m : VoidManager) (found : Option ℕ)
    → found ≡ none
    → (register_at found o s m).by_offset ≡ BTreeMap.insert o s m.by_offset
unfolding register_at insert_void
by_offset-register_at o s m none e = refl
by_offset-register_at o s m (some t) e = cc

sum_sizes-register_void :
    (o s : ℕ) (m : VoidManager)
    → 1 ≤ s
    → size_at m o ≡ none
    → sum_sizes (register_void o s m).by_offset ≡ s + sum_sizes m.by_offset
unfolding register_void
sum_sizes-register_void o s m fits free =
    ground
      (arith, by_offset-register_at o s m (size_at m o) free, sum_sizes-insert o s m.by_offset free)

-- What leaves the tracked space: `needed` bytes if the rest is large enough to be kept.
abbrev pub taken : ℕ → VoidManager → ℕ → ℕ
taken needed m size =
    if leb (minimum_useful_void_size m.hash_algo) (size - needed) then needed else size

-- No void starts where the rest of a taken void starts.
rest_free :
    (needed o s : ℕ) (m : VoidManager)
    → IsApart m
    → size_at m o ≡ some s
    → needed < s
    → (if o == (o + needed) % 2 ^ 64 then none else size_at m ((o + needed) % 2 ^ 64)) ≡ none
rest_free needed o s m h tracked lt = elim (Option-cases (size_at m ((o + needed) % 2 ^ 64))) [
  | inl e ↦ ground (arith, e)
  | inr (t, e) ↦ ground (arith, h.within o s, h.apart o s ((o + needed) % 2 ^ 64) t)
]

sum_sizes-take_from :
    (needed s : ℕ) (found : Option OffsetSet) (m : VoidManager) {o t : ℕ} {m' : VoidManager}
    → IsConsistent m
    → IsApart m
    → take_from needed s found m ≡ some ((o, t), m')
    → size_at m o ≡ some t
    → needed ≤ t
    → sum_sizes m.by_offset ≡ taken needed m t + sum_sizes m'.by_offset
unfolding take_from
sum_sizes-take_from needed s none m c h e tracked fits = cc
sum_sizes-take_from needed s (some []) m c h e tracked fits = cc
sum_sizes-take_from needed s (some ((o, u) ∷ set)) m {o = o'} {t} {m'} c h e tracked fits = ground (
  arith,
  minimum_useful_void_size_pos m.hash_algo,
  sum_sizes-remove o s m.by_offset c.offsets_sorted,
  rest_free needed o s m h,
  get-remove o ((o + needed) % 2 ^ 64) m.by_offset,
  sum_sizes-register_void ((o + needed) % 2 ^ 64) (s - needed) (record m {
    by_offset = BTreeMap.remove o m.by_offset;
    by_size = remove_from_size_index s o m.by_size;
  }),
)

sum_sizes-find_at :
    (needed : ℕ) (size : Option ℕ) (m : VoidManager) {o t : ℕ} {m' : VoidManager}
    → IsConsistent m
    → IsApart m
    → find_at needed size m ≡ some ((o, t), m')
    → size_at m o ≡ some t
    → needed ≤ t
    → sum_sizes m.by_offset ≡ taken needed m t + sum_sizes m'.by_offset
unfolding find_at
sum_sizes-find_at needed none m c h e tracked fits = cc
sum_sizes-find_at needed (some s) m c h e tracked fits =
    sum_sizes-take_from needed s _ m c h e tracked fits

-- In a consistent tracker whose voids lie apart, a successful search lowers the total by the bytes
-- that were asked for if the rest can hold an entry, and by the whole void if not.
pub total_void_space-find_void :
    (needed : ℕ) (m : VoidManager) {o s : ℕ} {m' : VoidManager}
    → IsConsistent m
    → IsApart m
    → find_void needed m ≡ some ((o, s), m')
    → total_void_space m ≡ taken needed m s + total_void_space m'
unfolding find_void
total_void_space-find_void needed m {o} {s} {m'} c h e =
    let found = subst (Found needed m) e (find_void-Found needed m c) in
    omega (
      arith,
      total_void_space_exact m c h,
      total_void_space_exact m' found.1 (find_void-IsApart needed m c h e),
      sum_sizes-find_at needed (first_fit needed m.by_size) m c h e found.0.tracked found.0.fits,
    )
