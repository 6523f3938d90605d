-- ===== src/BTree/Proofs/Entries.antt =====
-- About the sorted entries of a leaf in aeordb-lib/src/engine/btree.rs.
use aeordb.Prelude.{
  ◌≡◌, inl, inr, refl, subst, true, false, Option, none, some, List, [], ◌∷◌, ◌++◌, All, arith,
  Bool-cases, if◌then◌else◌,
}
use aeordb.Bytes.{Bytes, bytes_eq, bytes_eq_iff}
use aeordb.Strings.{bytes_lt}
use aeordb.Strings.Order.{bytes_lt_total, bytes_lt_trans, bytes_eq_sym}
use aeordb.Directory.{ChildEntry}
use aeordb.BTree.Spec.{lookup, put, IsAbove, IsBelow, IsSorted}
use aeordb.BTree.Proofs.Names.{lt_not_eq, lt_asym, lt_le_trans, le_trans}

abbrev pub IsAfter : Bytes → List ChildEntry → Type 0
IsAfter name es = All (λ d. bytes_lt name d.name ≡ true) es

pub IsAfter-weaken :
    (x y : Bytes) (es : List ChildEntry) → bytes_lt x y ≡ true → IsAfter y es → IsAfter x es
IsAfter-weaken x y [] h a = tt
IsAfter-weaken x y (e ∷ es) h (b, a) = (bytes_lt_trans x y e.name h b, IsAfter-weaken x y es h a)

put-IsAfter :
    (x : Bytes) (e : ChildEntry) (es : List ChildEntry)
    → bytes_lt x e.name ≡ true
    → IsAfter x es
    → IsAfter x (put e es)
unfolding put
put-IsAfter x e [] h a = (h, tt)
put-IsAfter x e (d ∷ es) h (b, a) = ground (arith, put-IsAfter x e es h a)

pub put-IsSorted :
    (lo hi : Option Bytes) (e : ChildEntry) (es : List ChildEntry)
    → IsAbove lo e.name
    → IsBelow hi e.name
    → IsSorted lo hi es
    → IsSorted lo hi (put e es)
unfolding put
put-IsSorted lo hi e [] above below s = (above, below, tt, tt)
put-IsSorted lo hi e (d ∷ es) above below (a, b, after, s) =
    elim (Bool-cases (bytes_eq d.name e.name)) [
      | inl same ↦
          let eq = (bytes_eq_iff d.name e.name).0 same in
          rw same (above, below, subst (λ n. IsAfter n es) eq after, s)
      | inr different ↦ elim (Bool-cases (bytes_lt e.name d.name)) [
        | inl before ↦
            rw (different, before)
              (
                above,
                below,
                (before, IsAfter-weaken e.name d.name es before after),
                (a, b, after, s),
              )
        | inr behind ↦
            let lt : bytes_lt d.name e.name ≡ true = ground (arith, bytes_lt_total d.name e.name) in
            rw (different, behind)
              (a, b, put-IsAfter d.name e es lt after, put-IsSorted lo hi e es above below s)
      ]
    ]

-- Bounds can be widened.
pub IsAbove-weaken :
    (lo : Option Bytes) (k n : Bytes) → IsAbove lo k → bytes_lt n k ≡ false → IsAbove lo n
IsAbove-weaken none k n a h = tt
IsAbove-weaken (some lo) k n a h = le_trans lo k n a h

pub IsBelow-weaken :
    (hi : Option Bytes) (k n : Bytes) → IsBelow hi k → bytes_lt n k ≡ true → IsBelow hi n
IsBelow-weaken none k n a h = tt
IsBelow-weaken (some hi) k n a h = bytes_lt_trans n k hi h a

pub IsSorted-below :
    (lo hi : Option Bytes) (k : Bytes) (es : List ChildEntry)
    → IsBelow hi k
    → IsSorted lo (some k) es
    → IsSorted lo hi es
IsSorted-below lo hi k [] h s = tt
IsSorted-below lo hi k (e ∷ es) h (a, b, after, s) =
    (a, IsBelow-weaken hi k e.name h b, after, IsSorted-below lo hi k es h s)

pub IsSorted-above :
    (lo hi : Option Bytes) (k : Bytes) (es : List ChildEntry)
    → IsAbove lo k
    → IsSorted (some k) hi es
    → IsSorted lo hi es
IsSorted-above lo hi k [] h s = tt
IsSorted-above lo hi k (e ∷ es) h (a, b, after, s) =
    (IsAbove-weaken lo k e.name h a, b, after, IsSorted-above lo hi k es h s)

pub above-IsAfter :
    (hi : Option Bytes) (x k : Bytes) (es : List ChildEntry)
    → bytes_lt x k ≡ true
    → IsSorted (some k) hi es
    → IsAfter x es
above-IsAfter hi x k [] h s = tt
above-IsAfter hi x k (e ∷ es) h (a, b, after, s) =
    (lt_le_trans x k e.name h a, above-IsAfter hi x k es h s)

IsAfter-append :
    (x : Bytes) (xs ys : List ChildEntry) → IsAfter x xs → IsAfter x ys → IsAfter x (xs ++ ys)
IsAfter-append x [] ys a b = b
IsAfter-append x (e ∷ xs) ys (h, a) b = (h, IsAfter-append x xs ys a b)

pub IsSorted-append :
    (lo hi : Option Bytes) (k : Bytes) (xs ys : List ChildEntry)
    → IsAbove lo k
    → IsBelow hi k
    → IsSorted lo (some k) xs
    → IsSorted (some k) hi ys
    → IsSorted lo hi (xs ++ ys)
IsSorted-append lo hi k [] ys above below s t = IsSorted-above lo hi k ys above t
IsSorted-append lo hi k (e ∷ xs) ys above below (a, b, after, s) t = (
  a,
  IsBelow-weaken hi k e.name below b,
  IsAfter-append e.name xs ys after (above-IsAfter hi e.name k ys b t),
  IsSorted-append lo hi k xs ys above below s t,
)

-- An operation on a name of one part of a sorted list is one on that part.
pub put-right :
    (lo : Option Bytes) (k : Bytes) (e : ChildEntry) (xs ys : List ChildEntry)
    → IsSorted lo (some k) xs
    → bytes_lt e.name k ≡ false
    → put e (xs ++ ys) ≡ xs ++ put e ys
unfolding put
put-right lo k e [] ys s h = refl
put-right lo k e (d ∷ xs) ys (a, b, after, s) h =
    let lt = lt_le_trans d.name k e.name b h in
    rw (lt_not_eq d.name e.name lt, lt_asym d.name e.name lt, put-right lo k e xs ys s h)

put-front : (e : ChildEntry) (ys : List ChildEntry) → IsAfter e.name ys → put e ys ≡ e ∷ ys
unfolding put
put-front e [] a = refl
put-front e (d ∷ ys) (h, a) = rw (bytes_eq_sym d.name e.name, lt_not_eq e.name d.name h, h)

pub put-left :
    (hi : Option Bytes) (k : Bytes) (e : ChildEntry) (xs ys : List ChildEntry)
    → IsSorted (some k) hi ys
    → bytes_lt e.name k ≡ true
    → put e (xs ++ ys) ≡ put e xs ++ ys
unfolding put
put-left hi k e [] ys s h = put-front e ys (above-IsAfter hi e.name k ys h s)
put-left hi k e (d ∷ xs) ys s h = ground (arith, put-left hi k e xs ys s h)

pub lookup-IsAfter : (n : Bytes) (es : List ChildEntry) → IsAfter n es → lookup es n ≡ none
unfolding lookup
lookup-IsAfter n [] a = refl
lookup-IsAfter n (e ∷ es) (h, a) =
    rw (bytes_eq_sym e.name n, lt_not_eq n e.name h, lookup-IsAfter n es a)

pub lookup-right :
    (lo : Option Bytes) (k n : Bytes) (xs ys : List ChildEntry)
    → IsSorted lo (some k) xs
    → bytes_lt n k ≡ false
    → lookup (xs ++ ys) n ≡ lookup ys n
unfolding lookup
lookup-right lo k n [] ys s h = refl
lookup-right lo k n (d ∷ xs) ys (a, b, after, s) h =
    rw (lt_not_eq d.name n (lt_le_trans d.name k n b h), lookup-right lo k n xs ys s h)

pub lookup-left :
    (hi : Option Bytes) (k n : Bytes) (xs ys : List ChildEntry)
    → IsSorted (some k) hi ys
    → bytes_lt n k ≡ true
    → lookup (xs ++ ys) n ≡ lookup xs n
unfolding lookup
lookup-left hi k n [] ys s h = lookup-IsAfter n ys (above-IsAfter hi n k ys h s)
lookup-left hi k n (d ∷ xs) ys s h = ground (arith, lookup-left hi k n xs ys s h)

-- After an insertion its name finds the entry, and every other name what it found before.
pub lookup-put :
    (e : ChildEntry) (es : List ChildEntry) (n : Bytes)
    → lookup (put e es) n ≡ (if bytes_eq e.name n then some e else lookup es n)
unfolding lookup put
lookup-put e [] n = refl
lookup-put e (d ∷ es) n = ground (
  arith,
  lookup-put e es n,
  bytes_eq_iff d.name e.name,
  bytes_eq_iff d.name n,
  bytes_eq_iff e.name n,
)
