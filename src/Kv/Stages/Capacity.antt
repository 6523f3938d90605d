-- ===== src/Kv/Stages/Capacity.antt =====
-- About the stage that `stage_for_count` chooses, and the places of the pages of a stage.
use aeordb.Prelude.{
  ℕ, zero, suc, ◌+◌, ◌*◌, ◌/◌, ◌≤◌, ◌<◌, ◌≡◌, ◌⊎◌, inl, inr, refl, ◌∙◌, List, [], ◌∷◌, length,
  get_or, ltb, Bool-cases, arith,
}
use native.Mathlib.Nat.{suc-mul, mul-le-mul_right, div-mul-le_self}
use aeordb.Kv.Pages.{page_size, max_entries_per_page, bucket_page_offset}
use aeordb.Kv.Stages.{
  kv_stage_sizes, buckets_for_block, stage_block_size, stage_params, stage_from, stage_for_count,
}

-- How many entries the pages of a block hold.
abbrev pub capacity_of : ℕ → ℕ → ℕ
capacity_of block_size hl = buckets_for_block block_size (page_size hl) * max_entries_per_page

-- The loop stops at the first size whose pages have room.
IsFirstRoom : List ℕ → ℕ → ℕ → ℕ → Type 0
IsFirstRoom sizes n hl k =
    (k < length sizes)
    × (n < capacity_of (get_or sizes k 0) hl)
    × ((j : ℕ) → j < k → capacity_of (get_or sizes j 0) hl ≤ n)

stage_from-cases :
    (sizes : List ℕ) (i n hl : ℕ)
    → ((k : ℕ) × (stage_from sizes i n hl ≡ i + k) × IsFirstRoom sizes n hl k)
      ⊎ ((stage_from sizes i n hl ≡ 9)
          × ((j : ℕ) → j < length sizes → capacity_of (get_or sizes j 0) hl ≤ n))
unfolding stage_from IsFirstRoom
stage_from-cases [] i n hl = inr (refl, λ j h. omega arith)
stage_from-cases (b ∷ sizes) i n hl = elim (Bool-cases (ltb n (capacity_of b hl))) [
  | inl room ↦ inl (0, ground arith, (omega arith, ground arith, λ j h. omega arith))
  | inr full ↦
      let le : capacity_of b hl ≤ n = ground arith in
      elim (stage_from-cases sizes (suc i) n hl) [
        | inl (k, e, (lt, room, below)) ↦
            inl (suc k, rw full (e ∙ omega arith), (omega arith, room, at_or_below k le below))
        | inr (e, below) ↦ inr (rw full e, at_or_below (length sizes) le below)
      ]
]
  where
    at_or_below :
        (k : ℕ)
        → capacity_of b hl ≤ n
        → ((j : ℕ) → j < k → capacity_of (get_or sizes j 0) hl ≤ n)
        → (j : ℕ) → j < suc k
        → capacity_of (get_or (b ∷ sizes) j 0) hl ≤ n
    at_or_below k le below zero h = le
    at_or_below k le below (suc j) h = below j (omega arith)

-- How many entries a stage holds.
abbrev pub stage_capacity : ℕ → ℕ → ℕ
stage_capacity stage hl = (stage_params stage (page_size hl)).1 * max_entries_per_page

pub record IsStageFor (n hl stage : ℕ) : Type 0 where
  pub in_table : stage < 10
  pub earlier_full : (t : ℕ) → t < stage → stage_capacity t hl ≤ n
  pub has_room : (n < stage_capacity stage hl) ⊎ ((stage ≡ 9) × (stage_capacity 9 hl ≤ n))

stage_capacity-eq :
    (t hl : ℕ) → t < 10 → stage_capacity t hl ≡ capacity_of (get_or kv_stage_sizes t 0) hl
unfolding stage_params stage_block_size
stage_capacity-eq t hl h = ground arith

-- The stage chosen for a number of entries is the first that has room for more, or the last of the
-- table if none has.
pub stage_for_count-IsStageFor : (n hl : ℕ) → IsStageFor n hl (stage_for_count n hl)
unfolding stage_for_count IsFirstRoom
stage_for_count-IsStageFor n hl = elim (stage_from-cases kv_stage_sizes 0 n hl) [
  | inl (k, e, (lt, room, below)) ↦
      let e' : stage_from kv_stage_sizes 0 n hl ≡ k = omega arith in
      rw e' (record {
        in_table = lt;
        earlier_full = λ t h. rw (stage_capacity-eq t hl (omega arith)) (below t h);
        has_room = inl (rw (stage_capacity-eq k hl lt) room);
      })
  | inr (e, below) ↦ rw e (record {
    in_table = omega arith;
    earlier_full = λ t h. rw (stage_capacity-eq t hl (omega arith)) (below t (omega arith));
    has_room = inr (refl, rw (stage_capacity-eq 9 hl (omega arith)) (below 9 (omega arith)));
  })
]

next_page : (p i j : ℕ) → i < j → i * p + p ≤ j * p
next_page p i j h =
    let le : suc i * p ≤ j * p = mul-le-mul_right p (omega arith) in omega (arith, suc-mul i p)

-- The page of every bucket of a stage ends within the block of the stage, and the page of an
-- earlier bucket ends before it starts.
pub bucket_page_offset_lem :
    (stage hl i : ℕ)
    → i < (stage_params stage (page_size hl)).1
    → (bucket_page_offset i hl + page_size hl ≤ (stage_params stage (page_size hl)).0)
      × ((j : ℕ) → j < i → bucket_page_offset j hl + page_size hl ≤ bucket_page_offset i hl)
unfolding bucket_page_offset stage_params buckets_for_block
bucket_page_offset_lem stage hl i h =
    let p = page_size hl in
    let b = stage_block_size stage in
    let last : i * p + p ≤ b = omega (arith, next_page p i (b / p) h, div-mul-le_self b p) in
    (last, λ j lt. next_page p j i lt)
