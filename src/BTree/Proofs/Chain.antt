-- ===== src/BTree/Proofs/Chain.antt =====
-- About the keys and children of an internal node in aeordb-lib/src/engine/btree.rs, whatever the
-- children hold.
use aeordb.Prelude.{
  ℕ, suc, ◌+◌, ◌≡◌, inl, inr, refl, sym, ap, subst, true, false, Option, none, some, List, [], ◌∷◌,
  ◌++◌, length, arith, Bool-cases,
}
use aeordb.Bytes.{Bytes, bytes_eq, bytes_eq_iff}
use aeordb.Strings.{bytes_lt}
use aeordb.Strings.Order.{bytes_eq_sym}
use aeordb.Directory.{ChildEntry}
use aeordb.BTree.{Search, binary_search, found, missing, next_place}
use aeordb.BTree.Internal.{child_index}
use aeordb.BTree.Spec.{IsAbove, IsBelow, IsSorted}
use aeordb.BTree.Proofs.Names.{lt_not_eq, lt_asym}
use aeordb.BTree.Proofs.Entries.{IsSorted-append}

-- Strictly above a lower bound.
abbrev pub IsOver : Option Bytes → Bytes → Type 0
IsOver none name = Unit {0}
IsOver (some bound) name = bytes_lt bound name ≡ true

pub IsOver-IsAbove : (lo : Option Bytes) (k : Bytes) → IsOver lo k → IsAbove lo k
IsOver-IsAbove none k h = tt
IsOver-IsAbove (some lo) k h = lt_asym lo k h

-- What a child holds between two bounds.
abbrev pub Holds : Type 1
Holds = Option Bytes → Option Bytes → Bytes → List ChildEntry → Type 0

-- The children hold parts of the entries, each between the keys around it.
pub data Chain (P : Holds)
    : Option Bytes → Option Bytes → List Bytes → List Bytes → List ChildEntry → Type 0 where
  last :
      (lo hi : Option Bytes) (h : Bytes) (es : List ChildEntry)
      → P lo hi h es
      → Chain P lo hi [] (h ∷ []) es
  link :
      (lo hi : Option Bytes) (k : Bytes) (ks : List Bytes) (h : Bytes) (hs : List Bytes)
      (xs ys : List ChildEntry)
      → IsOver lo k
      → IsBelow hi k
      → P lo (some k) h xs
      → Chain P (some k) hi ks hs ys
      → Chain P lo hi (k ∷ ks) (h ∷ hs) (xs ++ ys)

abbrev pub Grows : Holds → Holds → Type 0
Grows P Q = (lo hi : Option Bytes) (h : Bytes) (es : List ChildEntry) → P lo hi h es → Q lo hi h es

pub Chain-map :
    (P Q : Holds) (lo hi : Option Bytes) (ks hs : List Bytes) (es : List ChildEntry)
    → Grows P Q
    → Chain P lo hi ks hs es
    → Chain Q lo hi ks hs es
Chain-map P Q _ _ _ _ _ f (last lo hi h es p) = last lo hi h es (f lo hi h es p)
Chain-map P Q _ _ _ _ _ f (link lo hi k ks h hs xs ys o b p c) =
    link lo hi k ks h hs xs ys o b (f lo (some k) h xs p) (Chain-map P Q (some k) hi ks hs ys f c)

pub length-Chain :
    (P : Holds) (lo hi : Option Bytes) (ks hs : List Bytes) (es : List ChildEntry)
    → Chain P lo hi ks hs es
    → length hs ≡ length ks + 1
length-Chain P _ _ _ _ _ (last lo hi h es p) = refl
length-Chain P _ _ _ _ _ (link lo hi k ks h hs xs ys o b p c) =
    omega (arith, length-Chain P (some k) hi ks hs ys c)

abbrev pub Sorts : Holds → Type 0
Sorts P = Grows P (λ lo hi h es. IsSorted lo hi es)

pub Chain-IsSorted :
    (P : Holds) (lo hi : Option Bytes) (ks hs : List Bytes) (es : List ChildEntry)
    → Sorts P
    → Chain P lo hi ks hs es
    → IsSorted lo hi es
Chain-IsSorted P _ _ _ _ _ f (last lo hi h es p) = f lo hi h es p
Chain-IsSorted P _ _ _ _ _ f (link lo hi k ks h hs xs ys o b p c) =
    IsSorted-append lo hi k xs ys (IsOver-IsAbove lo k o) b (f lo (some k) h xs p)
      (Chain-IsSorted P (some k) hi ks hs ys f c)

-- The index of the child for a name, without the record.
abbrev pub index : List Bytes → Bytes → ℕ
index ks n = child_index (binary_search ks n)

pub index-before : (k n : Bytes) (ks : List Bytes) → bytes_lt n k ≡ true → index (k ∷ ks) n ≡ 0
unfolding binary_search
index-before k n ks h = rw (bytes_eq_sym k n, lt_not_eq n k h, h)

binary_search_nil : (n : Bytes) → index [] n ≡ 0
unfolding binary_search
binary_search_nil n = refl

index-next_place : (s : Search) → child_index (next_place s) ≡ suc (child_index s)
index-next_place (found i) = omega arith
index-next_place (missing i) = refl

index_first :
    (P : Holds) (k n : Bytes) (hi : Option Bytes) (ks hs : List Bytes) (es : List ChildEntry)
    → n ≡ k
    → Chain P (some k) hi ks hs es
    → index ks n ≡ 0
index_first P k n _ _ _ _ e (last lo hi h es p) = binary_search_nil n
index_first P k n _ _ _ _ e (link lo hi l ks h hs xs ys o b p c) =
    index-before l n ks (subst (λ m. bytes_lt m l ≡ true) (sym e) o)

pub index-behind :
    (P : Holds) (k n : Bytes) (hi : Option Bytes) (ks hs : List Bytes) (es : List ChildEntry)
    → bytes_lt n k ≡ false
    → Chain P (some k) hi ks hs es
    → index (k ∷ ks) n ≡ suc (index ks n)
unfolding binary_search
index-behind P k n hi ks hs es h c = elim (Bool-cases (bytes_eq k n)) [
  | inl same ↦
      rw same (ap suc (sym (index_first P k n hi ks hs es (sym ((bytes_eq_iff k n).0 same)) c)))
  | inr different ↦ rw (different, h) (index-next_place (binary_search ks n))
]
