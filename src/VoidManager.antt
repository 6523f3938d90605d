-- ===== src/VoidManager.antt =====
-- aeordb-lib/src/engine/void_manager.rs: the reusable free space of the data file, in two indexes
-- that must agree. Offsets are `u64` and sizes `u32`; sums wrap.
pub mod Index
pub mod Consistent
pub mod FirstFit
pub mod Find
pub mod Space
pub mod Total
mod Examples
use aeordb.Prelude.{
  ℕ, ◌+◌, ◌-◌, ◌%◌, ◌^◌, ◌≡◌, Option, none, some, List, [], ◌∷◌, length, leb, ltb, ◌==◌,
  if◌then◌else◌, ◌&&◌, not,
}
use aeordb.Prelude.BTreeMap
use aeordb.Prelude.BTreeMap.{BTreeMap, is_empty}
use aeordb.Errors.{EngineResult, ok, err}
use aeordb.Format.HashAlgorithm.{HashAlgorithm, hash_length}
use aeordb.Format.EntryHeader.{compute_total_length}

abbrev pub minimum_void_size : ℕ
minimum_void_size = 1

abbrev pub OffsetSet : Type 0
OffsetSet = BTreeMap (Unit {0})

pub record VoidManager : Type 0 where
  pub by_offset : BTreeMap ℕ
  pub by_size : BTreeMap OffsetSet
  pub hash_algo : HashAlgorithm

pub new : HashAlgorithm → VoidManager
new algo = record { by_offset = []; by_size = []; hash_algo = algo }

-- `by_size.entry(size).or_default()`
or_default : Option OffsetSet → OffsetSet
or_default none = []
or_default (some set) = set

-- `if let Some(set) = by_size.get_mut(&size) { set.remove(&offset); if set.is_empty() { ... } }`
drop_from : Option OffsetSet → ℕ → ℕ → BTreeMap OffsetSet → BTreeMap OffsetSet
drop_from none size offset by_size = by_size
drop_from (some set) size offset by_size =
    let set' = BTreeMap.remove offset set in
    if is_empty set' then BTreeMap.remove size by_size else BTreeMap.insert size set' by_size

unfoldable pub remove_from_size_index : ℕ → ℕ → BTreeMap OffsetSet → BTreeMap OffsetSet
unfolding drop_from
remove_from_size_index size offset by_size =
    drop_from (BTreeMap.get size by_size) size offset by_size

unfoldable pub add_to_size_index : ℕ → ℕ → BTreeMap OffsetSet → BTreeMap OffsetSet
unfolding or_default
add_to_size_index size offset by_size =
    BTreeMap.insert size (BTreeMap.insert offset tt (or_default (BTreeMap.get size by_size)))
      by_size

-- The two insertions at the end of `register_void`.
insert_void : ℕ → ℕ → BTreeMap OffsetSet → VoidManager → VoidManager
insert_void offset size by_size m = record m {
  by_offset = BTreeMap.insert offset size m.by_offset;
  by_size = add_to_size_index size offset by_size;
}

register_at : Option ℕ → ℕ → ℕ → VoidManager → VoidManager
unfolding insert_void
register_at none offset size m = insert_void offset size m.by_size m
register_at (some existing_size) offset size m =
    if existing_size == size
    then m
    else insert_void offset size (remove_from_size_index existing_size offset m.by_size) m

unfoldable pub register_void : ℕ → ℕ → VoidManager → VoidManager
unfolding register_at
register_void offset size m =
    if ltb size minimum_void_size
    then m
    else register_at (BTreeMap.get offset m.by_offset) offset size m

-- `compute_total_length(algo, 0, 0).expect(..)`; the fallback stands for the panic.
expect_length : EngineResult ℕ → ℕ
expect_length (ok n) = n
expect_length (err e) = 0

unfoldable pub minimum_useful_void_size : HashAlgorithm → ℕ
unfolding expect_length compute_total_length
minimum_useful_void_size algo = expect_length (compute_total_length algo 0 0)

-- `by_size.range(needed..).find(|(_, offsets)| !offsets.is_empty())`, of which the size is kept.
unfoldable pub first_fit : ℕ → BTreeMap OffsetSet → Option ℕ
first_fit needed [] = none
first_fit needed ((size, set) ∷ rest) =
    if leb needed size && not (is_empty set) then some size else first_fit needed rest

take_from : ℕ → ℕ → Option OffsetSet → VoidManager → Option ((ℕ × ℕ) × VoidManager)
take_from needed size none m = none
take_from needed size (some []) m = none
take_from needed size (some ((offset, u) ∷ set)) m =
    let m' : VoidManager = record m {
      by_offset = BTreeMap.remove offset m.by_offset;
      by_size = remove_from_size_index size offset m.by_size;
    } in
    let remainder = size - needed in
    some (
      (offset, size),
      (if leb (minimum_useful_void_size m.hash_algo) remainder
          then register_void ((offset + needed) % 2 ^ 64) remainder m'
          else m'),
    )

find_at : ℕ → Option ℕ → VoidManager → Option ((ℕ × ℕ) × VoidManager)
find_at needed none m = none
find_at needed (some size) m = take_from needed size (BTreeMap.get size m.by_size) m

unfoldable pub find_void : ℕ → VoidManager → Option ((ℕ × ℕ) × VoidManager)
unfolding find_at take_from
find_void needed_size m = find_at needed_size (first_fit needed_size m.by_size) m

remove_at : Option ℕ → ℕ → VoidManager → Option ℕ × VoidManager
remove_at none offset m = (none, m)
remove_at (some size) offset m = (
  some size,
  record m {
    by_offset = BTreeMap.remove offset m.by_offset;
    by_size = remove_from_size_index size offset m.by_size;
  },
)

unfoldable pub remove_void : ℕ → VoidManager → Option ℕ × VoidManager
unfolding remove_at
remove_void offset m = remove_at (BTreeMap.get offset m.by_offset) offset m

pub sum_sizes : BTreeMap ℕ → ℕ
sum_sizes [] = 0
sum_sizes ((offset, size) ∷ rest) = size + sum_sizes rest

unfoldable pub total_void_space : VoidManager → ℕ
unfolding sum_sizes
total_void_space m = sum_sizes m.by_offset % 2 ^ 64

unfoldable pub void_count : VoidManager → ℕ
void_count m = length m.by_offset

register_all : List (ℕ × ℕ) → VoidManager → VoidManager
register_all [] m = m
register_all ((offset, size) ∷ voids) m = register_all voids (register_void offset size m)

unfoldable pub replace_all : List (ℕ × ℕ) → VoidManager → VoidManager
unfolding register_all
replace_all voids m = register_all voids (record m { by_offset = []; by_size = [] })
