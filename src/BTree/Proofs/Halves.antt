-- ===== src/BTree/Proofs/Halves.antt =====
-- About the two `split` methods of aeordb-lib/src/engine/btree.rs.
use aeordb.Prelude.{
  ℕ, zero, suc, ◌<◌, ◌≡◌, refl, sym, ap, ◌∙◌, true, false, Option, none, some, List, [], ◌∷◌, ◌++◌,
  length, get_or, take, drop, All, arith,
}
use mathlib.Core.List.{append_assoc}
use aeordb.Bytes.{Bytes, bytes_eq_iff}
use aeordb.Strings.{bytes_lt}
use aeordb.Strings.Order.{bytes_lt_trans, bytes_lt_irrefl}
use aeordb.Directory.{ChildEntry}
use aeordb.BTree.Leaf.{first_name}
use aeordb.BTree.Spec.{IsAbove, IsBelow, IsSorted}
use aeordb.BTree.Proofs.Names.{le_cases, lt_asym}
use aeordb.BTree.Proofs.Entries.{IsAfter}
use aeordb.BTree.Proofs.Chain.{Holds, Chain, IsOver}
use aeordb.BTree.Proofs.Chain.Chain.{last, link}
use aeordb.BTree.Proofs.Focus.{IsOver-trans}

pub All-take {ℓ κ} :
    {A : Type ℓ} (P : A → Type κ) (n : ℕ) (xs : List A) → All P xs → All P (take n xs)
All-take P zero xs a = tt
All-take P (suc n) [] a = tt
All-take P (suc n) (x ∷ xs) (p, a) = (p, All-take P n xs a)

pub All-drop {ℓ κ} :
    {A : Type ℓ} (P : A → Type κ) (n : ℕ) (xs : List A) → All P xs → All P (drop n xs)
All-drop P zero xs a = a
All-drop P (suc n) [] a = tt
All-drop P (suc n) (x ∷ xs) (p, a) = All-drop P n xs a

pub All-get_or {ℓ κ} :
    {A : Type ℓ} (P : A → Type κ) (n : ℕ) (xs : List A) (a : A)
    → n < length xs
    → All P xs
    → P (get_or xs n a)
All-get_or P n [] a h v = absurd omega arith
All-get_or P zero (x ∷ xs) a h (p, v) = p
All-get_or P (suc n) (x ∷ xs) a h (p, v) = All-get_or P n xs a (omega arith) v

-- The name at which a leaf is split, seen from an entry before it.
first_name-IsAfter :
    (x : Bytes) (n : ℕ) (es : List ChildEntry)
    → n < length es
    → IsAfter x es
    → bytes_lt x (first_name (drop n es)) ≡ true
first_name-IsAfter x n [] h a = absurd omega arith
first_name-IsAfter x zero (e ∷ es) h (b, a) = b
first_name-IsAfter x (suc n) (e ∷ es) h (b, a) = first_name-IsAfter x n es (omega arith) a

over_le : (lo n k : Bytes) → bytes_lt n lo ≡ false → bytes_lt n k ≡ true → bytes_lt lo k ≡ true
over_le lo n k a h = ground (arith, le_cases n lo a, bytes_eq_iff lo n, bytes_lt_trans lo n k)

above-IsOver : (lo : Option Bytes) (n k : Bytes) → IsAbove lo n → bytes_lt n k ≡ true → IsOver lo k
above-IsOver none n k a h = tt
above-IsOver (some lo) n k a h = over_le lo n k a h

IsAfter-IsSorted :
    (lo hi : Option Bytes) (k : Bytes) (es : List ChildEntry)
    → IsAfter k es
    → IsSorted lo hi es
    → IsSorted (some k) hi es
IsAfter-IsSorted lo hi k [] h s = tt
IsAfter-IsSorted lo hi k (e ∷ es) (lt, h) (a, b, after, s) =
    (lt_asym k e.name lt, b, after, IsAfter-IsSorted lo hi k es h s)

halves_from :
    (lo hi : Option Bytes) (n : ℕ) (es : List ChildEntry)
    → suc n < length es
    → IsSorted lo hi es
    → IsOver lo (first_name (drop (suc n) es))
      × IsBelow hi (first_name (drop (suc n) es))
      × IsSorted lo (some (first_name (drop (suc n) es))) (take (suc n) es)
      × IsSorted (some (first_name (drop (suc n) es))) hi (drop (suc n) es)
halves_from lo hi n [] h s = absurd omega arith
halves_from lo hi zero (e ∷ []) h s = absurd omega arith
halves_from lo hi zero (e ∷ d ∷ es) h (a, b, (lt, after), (a', b', after', s)) = (
  above-IsOver lo e.name d.name a lt,
  b',
  (a, lt, tt, tt),
  (bytes_lt_irrefl d.name, b', after', IsAfter-IsSorted lo hi d.name es after' s),
)
halves_from lo hi (suc n) (e ∷ es) h (a, b, after, s) =
    let (o, below, left, right) = halves_from lo hi n es (omega arith) s in
    let k = first_name (drop (suc n) es) in
    let lt = first_name-IsAfter e.name (suc n) es (omega arith) after in
    (o, below, (a, lt, All-take (λ d. bytes_lt e.name d.name ≡ true) (suc n) es after, left), right)

-- The halves of sorted entries, neither of which is empty.
pub leaf_halves :
    (lo hi : Option Bytes) (n : ℕ) (es : List ChildEntry)
    → 0 < n
    → n < length es
    → IsSorted lo hi es
    → IsOver lo (first_name (drop n es))
      × IsBelow hi (first_name (drop n es))
      × IsSorted lo (some (first_name (drop n es))) (take n es)
      × IsSorted (some (first_name (drop n es))) hi (drop n es)
leaf_halves lo hi zero es positive h s = absurd omega arith
leaf_halves lo hi (suc n) es positive h s = halves_from lo hi n es h s

-- The halves of a chain, without the key between them.
pub chain_halves :
    (P : Holds) (lo hi : Option Bytes) (ks hs : List Bytes) (es : List ChildEntry) (n : ℕ)
    → n < length ks
    → Chain P lo hi ks hs es
    → (xs : List ChildEntry) × (ys : List ChildEntry) × (es ≡ xs ++ ys)
      × IsOver lo (get_or ks n [])
      × IsBelow hi (get_or ks n [])
      × Chain P lo (some (get_or ks n [])) (take n ks) (take (suc n) hs) xs
      × Chain P (some (get_or ks n [])) hi (drop (suc n) ks) (drop (suc n) hs) ys
chain_halves P _ _ _ _ _ n h (last lo hi h' es p) = absurd omega arith
chain_halves P _ _ _ _ _ zero h (link lo hi k ks h' hs xs ys o b p c) =
    (xs, ys, refl, o, b, last lo (some k) h' xs p, c)
chain_halves P _ _ _ _ _ (suc n) h (link lo hi k ks h' hs xs ys o b p c) =
    let (xs', ys', e, o', b', left, right) =
      chain_halves P (some k) hi ks hs ys n (omega arith) c in
    (
      xs ++ xs',
      ys',
      ap (λ l. xs ++ l) e ∙ sym (append_assoc xs xs' ys'),
      IsOver-trans lo k (get_or ks n []) o o',
      b',
      link lo (some (get_or ks n [])) k (take n ks) h' (take (suc n) hs) xs xs' o o' p left,
      right,
    )
