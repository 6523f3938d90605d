-- ===== src/VoidManager/Consistent.antt =====
-- The invariant of the two indexes of aeordb-lib/src/engine/void_manager.rs.
use aeordb.Prelude.{
  ℕ, ◌≤◌, ◌≡◌, refl, Bool, false, Option, none, some, List, [], ◌∷◌, arith, inl, inr, ltb, ◌==◌,
  if◌then◌else◌, Bool-cases,
}
use aeordb.Prelude.BTreeMap
use aeordb.Prelude.BTreeMap.{
  BTreeMap, is_empty, IsSorted, get-nil, get-insert, get-remove, is_empty-get, insert-IsSorted,
  remove-IsSorted, Values, insert-Values, remove-Values, insert-is_empty,
}
use aeordb.Format.HashAlgorithm.{HashAlgorithm}
use aeordb.VoidManager.{
  VoidManager, OffsetSet, register_void, remove_void, replace_all, remove_from_size_index,
  minimum_void_size, add_to_size_index, or_default, drop_from, register_at, insert_void,
  register_all, remove_at,
}
use aeordb.VoidManager.Index.{
  listed, listed-nil, listed-add_to_size_index, listed-remove_from_size_index,
}

-- The recorded size, compared.
abbrev pub is_size : Option ℕ → ℕ → Bool
is_size none size = false
is_size (some t) size = t == size

-- A set in the size index is ordered and not empty.
abbrev pub IsProper : OffsetSet → Type 0
IsProper set = IsSorted set × (is_empty set ≡ false)

pub record IsConsistent (m : VoidManager) : Type 0 where
  pub offsets_sorted : IsSorted m.by_offset
  pub sizes_sorted : IsSorted m.by_size
  pub sets_proper : Values IsProper m.by_size
  -- An offset stands in the set of a size exactly if that is its size.
  pub agree : (s o : ℕ) → listed s o m.by_size ≡ is_size (BTreeMap.get o m.by_offset) s
  pub sized : Values (λ s. minimum_void_size ≤ s) m.by_offset

abbrev pub IsSizeIndex : BTreeMap OffsetSet → Type 0
IsSizeIndex b = IsSorted b × Values IsProper b

or_default-IsSorted :
    (s : ℕ) (b : BTreeMap OffsetSet) (found : Option OffsetSet)
    → Values IsProper b
    → BTreeMap.get s b ≡ found
    → IsSorted (or_default found)
unfolding or_default
or_default-IsSorted s b none proper e = tt
or_default-IsSorted s b (some set) proper e = (proper s set e).0

add_to_size_index-IsSizeIndex :
    (s o : ℕ) (b : BTreeMap OffsetSet) → IsSizeIndex b → IsSizeIndex (add_to_size_index s o b)
unfolding add_to_size_index
add_to_size_index-IsSizeIndex s o b (sorted, proper) =
    let old = or_default (BTreeMap.get s b) in
    (
      insert-IsSorted s _ b sorted,
      insert-Values IsProper s _ b
          (
            insert-IsSorted o tt old (or_default-IsSorted s b _ proper refl),
            insert-is_empty o tt old,
          )
          proper,
    )

drop_from-IsSizeIndex :
    (s o : ℕ) (b : BTreeMap OffsetSet) (found : Option OffsetSet)
    → IsSizeIndex b
    → BTreeMap.get s b ≡ found
    → IsSizeIndex (drop_from found s o b)
unfolding drop_from
drop_from-IsSizeIndex s o b none h e = h
drop_from-IsSizeIndex s o b (some set) (sorted, proper) e =
    elim (Bool-cases (is_empty (BTreeMap.remove o set))) [
      | inl gone ↦ rw gone (remove-IsSorted s b sorted, remove-Values IsProper s b proper)
      | inr left ↦ rw left (
        insert-IsSorted s _ b sorted,
        insert-Values IsProper s _ b (remove-IsSorted o set (proper s set e).0, left) proper,
      )
    ]

remove_from_size_index-IsSizeIndex :
    (s o : ℕ) (b : BTreeMap OffsetSet) → IsSizeIndex b → IsSizeIndex (remove_from_size_index s o b)
unfolding remove_from_size_index
remove_from_size_index-IsSizeIndex s o b h = drop_from-IsSizeIndex s o b _ h refl

-- `by_size` before the insertion: `o` stands in no set, and the other offsets where they did.
abbrev IsClear : ℕ → BTreeMap OffsetSet → VoidManager → Type 0
IsClear o b m =
    (t p : ℕ) → listed t p b ≡ (if o == p then false else is_size (BTreeMap.get p m.by_offset) t)

insert_void-IsConsistent :
    (o s : ℕ) (b : BTreeMap OffsetSet) (m : VoidManager)
    → minimum_void_size ≤ s
    → IsSizeIndex b
    → IsClear o b m
    → IsConsistent m
    → IsConsistent (insert_void o s b m)
unfolding insert_void
insert_void-IsConsistent o s b m fits index clear c =
    let (sorted, proper) = add_to_size_index-IsSizeIndex s o b index in
    record {
      offsets_sorted = insert-IsSorted o s m.by_offset c.offsets_sorted;
      sizes_sorted = sorted;
      sets_proper = proper;
      agree = λ t p.
          ground
            (arith, listed-add_to_size_index s o b t p, get-insert o p s m.by_offset, clear t p);
      sized = insert-Values (λ n. minimum_void_size ≤ n) o s m.by_offset fits c.sized;
    }

remove_from_size_index-IsClear :
    (o s : ℕ) (m : VoidManager)
    → BTreeMap.get o m.by_offset ≡ some s
    → IsConsistent m
    → IsClear o (remove_from_size_index s o m.by_size) m
remove_from_size_index-IsClear o s m e c t p =
    ground (arith, listed-remove_from_size_index s o m.by_size t p, c.agree t p)

register_at-IsConsistent :
    (o s : ℕ) (m : VoidManager) (found : Option ℕ)
    → minimum_void_size ≤ s
    → BTreeMap.get o m.by_offset ≡ found
    → IsConsistent m
    → IsConsistent (register_at found o s m)
unfolding register_at
register_at-IsConsistent o s m none fits e c =
    insert_void-IsConsistent o s m.by_size m fits (c.sizes_sorted, c.sets_proper)
      (λ t p. ground (arith, c.agree t p)) c
register_at-IsConsistent o s m (some old) fits e c = elim (Bool-cases (old == s)) [
  | inl same ↦ rw same c
  | inr other ↦ rw other (
      insert_void-IsConsistent o s _ m fits
        (remove_from_size_index-IsSizeIndex old o m.by_size (c.sizes_sorted, c.sets_proper))
        (remove_from_size_index-IsClear o old m e c) c)
]

-- Registering a void keeps the two indexes consistent.
pub register_void-IsConsistent :
    (o s : ℕ) (m : VoidManager) → IsConsistent m → IsConsistent (register_void o s m)
unfolding register_void
register_void-IsConsistent o s m c = elim (Bool-cases (ltb s minimum_void_size)) [
  | inl small ↦ rw small c
  | inr large ↦ rw large (register_at-IsConsistent o s m _ (ground arith) refl c)
]

-- Nothing is tracked.
pub empty-IsConsistent :
    (algo : HashAlgorithm)
    → IsConsistent (record { by_offset = []; by_size = []; hash_algo = algo })
unfolding BTreeMap.get
empty-IsConsistent algo = record {
  offsets_sorted = tt;
  sizes_sorted = tt;
  sets_proper = λ s set e. cc;
  agree = λ s o. listed-nil s o;
  sized = λ o s e. cc;
}

register_all-IsConsistent :
    (voids : List (ℕ × ℕ)) (m : VoidManager) → IsConsistent m → IsConsistent (register_all voids m)
unfolding register_all
register_all-IsConsistent [] m c = c
register_all-IsConsistent ((o, s) ∷ voids) m c =
    register_all-IsConsistent voids (register_void o s m) (register_void-IsConsistent o s m c)

-- Replacing all voids makes the two indexes consistent, whatever they held.
pub replace_all-IsConsistent :
    (voids : List (ℕ × ℕ)) (m : VoidManager) → IsConsistent (replace_all voids m)
unfolding replace_all
replace_all-IsConsistent voids m =
    register_all-IsConsistent voids _ (empty-IsConsistent m.hash_algo)

pub forget-IsConsistent :
    (o s : ℕ) (m : VoidManager)
    → BTreeMap.get o m.by_offset ≡ some s
    → IsConsistent m
    → IsConsistent (record m {
      by_offset = BTreeMap.remove o m.by_offset;
      by_size = remove_from_size_index s o m.by_size;
    })
forget-IsConsistent o s m e c =
    let (sorted, proper) =
      remove_from_size_index-IsSizeIndex s o m.by_size (c.sizes_sorted, c.sets_proper) in
    record {
      offsets_sorted = remove-IsSorted o m.by_offset c.offsets_sorted;
      sizes_sorted = sorted;
      sets_proper = proper;
      agree = λ t p.
          ground (arith, remove_from_size_index-IsClear o s m e c t p, get-remove o p m.by_offset);
      sized = remove-Values (λ n. minimum_void_size ≤ n) o m.by_offset c.sized;
    }

remove_at-IsConsistent :
    (o : ℕ) (m : VoidManager) (found : Option ℕ)
    → BTreeMap.get o m.by_offset ≡ found
    → IsConsistent m
    → IsConsistent (remove_at found o m).1
unfolding remove_at
remove_at-IsConsistent o m none e c = c
remove_at-IsConsistent o m (some s) e c = forget-IsConsistent o s m e c

-- Removing a void keeps the two indexes consistent.
pub remove_void-IsConsistent :
    (o : ℕ) (m : VoidManager) → IsConsistent m → IsConsistent (remove_void o m).1
unfolding remove_void
remove_void-IsConsistent o m c = remove_at-IsConsistent o m _ refl c
