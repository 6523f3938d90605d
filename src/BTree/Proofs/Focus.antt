-- ===== src/BTree/Proofs/Focus.antt =====
-- About the child that a name leads to, in an internal node of aeordb-lib/src/engine/btree.rs.
use aeordb.Prelude.{
  ℕ, suc, ◌+◌, ◌≡◌, inl, inr, refl, sym, ap, subst, ◌∙◌, true, false, Option, none, some, List, [],
  ◌∷◌, ◌++◌, get_or, arith, Bool-cases,
}
use aeordb.Prelude.Edits.{set_at, insert_at}
use mathlib.Core.List.{append_assoc, append-nil}
use aeordb.Bytes.{Bytes}
use aeordb.Strings.{bytes_lt}
use aeordb.Strings.Order.{bytes_lt_trans, bytes_eq_sym}
use aeordb.Directory.{ChildEntry}
use aeordb.BTree.{binary_search, missing}
use aeordb.BTree.Spec.{lookup, put, IsAbove, IsBelow}
use aeordb.BTree.Proofs.Names.{lt_not_eq, lt_asym}
use aeordb.BTree.Proofs.Entries.{put-left, put-right, lookup-left, lookup-right, IsBelow-weaken}
use aeordb.BTree.Proofs.Chain.{
  Holds, Chain, Grows, Sorts, Chain-map, Chain-IsSorted, IsOver, index, index-before, index-behind,
}
use aeordb.BTree.Proofs.Chain.Chain.{last, link}

-- The child for a name, its bounds and its part of the entries, with what changing it does.
pub record Focus (P : Holds) (lo hi : Option Bytes) (ks hs : List Bytes) (es : List ChildEntry)
    (n : Bytes) : Type 1 where
  pub low : Option Bytes
  pub high : Option Bytes
  pub part : List ChildEntry
  pub before : List ChildEntry
  pub behind : List ChildEntry
  pub here : P low high (get_or hs (index ks n) []) part
  pub above : IsAbove low n
  pub below : IsBelow high n
  pub over : (k : Bytes) → IsOver low k → IsOver lo k
  pub lookup_part : lookup es n ≡ lookup part n
  pub put_part : (e : ChildEntry) → e.name ≡ n → put e es ≡ before ++ (put e part ++ behind)
  pub replace :
      (Q : Holds) (h : Bytes) (xs : List ChildEntry)
      → Grows P Q
      → Q low high h xs
      → Chain Q lo hi ks (set_at (index ks n) h hs) (before ++ (xs ++ behind))
  pub divide :
      (Q : Holds) (k h h' : Bytes) (xs ys : List ChildEntry)
      → Grows P Q
      → IsOver low k
      → IsBelow high k
      → Q low (some k) h xs
      → Q (some k) high h' ys
      → (binary_search ks k ≡ missing (index ks n))
        × Chain Q lo hi
            (insert_at (index ks n) k ks)
            (insert_at (index ks n + 1) h' (set_at (index ks n) h hs))
            (before ++ ((xs ++ ys) ++ behind))

search_nil : (k : Bytes) → binary_search [] k ≡ missing 0
unfolding binary_search
search_nil k = refl

search-before :
    (k l : Bytes) (ks : List Bytes) → bytes_lt k l ≡ true → binary_search (l ∷ ks) k ≡ missing 0
unfolding binary_search
search-before k l ks h = rw (bytes_eq_sym l k, lt_not_eq k l h, h)

search-behind :
    (k l : Bytes) (ks : List Bytes) (i : ℕ)
    → bytes_lt l k ≡ true
    → binary_search ks k ≡ missing i
    → binary_search (l ∷ ks) k ≡ missing (suc i)
unfolding binary_search
search-behind k l ks i h e = rw (lt_not_eq l k h, lt_asym l k h, e)

Focus-last :
    (P : Holds) (lo hi : Option Bytes) (h : Bytes) (es : List ChildEntry) (n : Bytes)
    → IsAbove lo n
    → IsBelow hi n
    → P lo hi h es
    → Focus P lo hi [] (h ∷ []) es n
unfolding binary_search
Focus-last P lo hi h es n above below p = record {
  low = lo;
  high = hi;
  part = es;
  before = [];
  behind = [];
  here = p;
  above = above;
  below = below;
  over = λ k o. o;
  lookup_part = refl;
  put_part = λ e same. sym (append-nil (put e es));
  replace = λ Q h' xs grow q. last lo hi h' (xs ++ []) (subst (Q lo hi h') (sym (append-nil xs)) q);
  divide = λ Q k h' h'' xs ys grow o b q r. (
    search_nil k,
    subst (Chain Q lo hi (k ∷ []) (h' ∷ h'' ∷ [])) (sym (append-nil (xs ++ ys)))
        (link lo hi k [] h' (h'' ∷ []) xs ys o b q (last (some k) hi h'' ys r)),
  );
}

Focus-first :
    (P : Holds) (lo hi : Option Bytes) (l : Bytes) (ks : List Bytes) (h : Bytes) (hs : List Bytes)
    (xs ys : List ChildEntry) (n : Bytes)
    → Sorts P
    → IsOver lo l
    → IsBelow hi l
    → P lo (some l) h xs
    → Chain P (some l) hi ks hs ys
    → IsAbove lo n
    → bytes_lt n l ≡ true
    → Focus P lo hi (l ∷ ks) (h ∷ hs) (xs ++ ys) n
Focus-first P lo hi l ks h hs xs ys n sorts o b p c above before_l =
    let i0 = index-before l n ks before_l in
    let sorted = Chain-IsSorted P (some l) hi ks hs ys sorts c in
    record {
      low = lo;
      high = some l;
      part = xs;
      before = [];
      behind = ys;
      here = rw i0 p;
      above = above;
      below = before_l;
      over = λ k o'. o';
      lookup_part = lookup-left hi l n xs ys sorted before_l;
      put_part = λ e same.
          put-left hi l e xs ys sorted (subst (λ m. bytes_lt m l ≡ true) (sym same) before_l);
      replace = λ Q h' xs' grow q.
          rw i0 (link lo hi l ks h' hs xs' ys o b q (Chain-map P Q (some l) hi ks hs ys grow c));
      divide = λ Q k h' h'' xs' ys' grow o' b' q r. (
        rw i0 (search-before k l ks b'),
        rw (i0, append_assoc xs' ys' ys)
            (link lo hi k (l ∷ ks) h' (h'' ∷ hs) xs' (ys' ++ ys) o' (IsBelow-weaken hi l k b b') q (
              link (some k) hi l ks h'' hs ys' ys b' b r
                (Chain-map P Q (some l) hi ks hs ys grow c))),
      );
    }

pub IsOver-trans :
    (lo : Option Bytes) (l k : Bytes) → IsOver lo l → bytes_lt l k ≡ true → IsOver lo k
IsOver-trans none l k o h = tt
IsOver-trans (some lo) l k o h = bytes_lt_trans lo l k o h

Focus-next :
    (P : Holds) (lo hi : Option Bytes) (l : Bytes) (ks : List Bytes) (h : Bytes) (hs : List Bytes)
    (xs ys : List ChildEntry) (n : Bytes)
    → Sorts P
    → IsOver lo l
    → IsBelow hi l
    → P lo (some l) h xs
    → Chain P (some l) hi ks hs ys
    → bytes_lt n l ≡ false
    → Focus P (some l) hi ks hs ys n
    → Focus P lo hi (l ∷ ks) (h ∷ hs) (xs ++ ys) n
Focus-next P lo hi l ks h hs xs ys n sorts o b p c behind_l f =
    let step = index-behind P l n hi ks hs ys behind_l c in
    let i = index ks n in
    let plus : suc i + 1 ≡ suc (i + 1) = omega arith in
    let sorted = sorts lo (some l) h xs p in
    record {
      low = f.low;
      high = f.high;
      part = f.part;
      before = xs ++ f.before;
      behind = f.behind;
      here = rw step f.here;
      above = f.above;
      below = f.below;
      over = λ k o'. IsOver-trans lo l k o (f.over k o');
      lookup_part = lookup-right lo l n xs ys sorted behind_l ∙ f.lookup_part;
      put_part = λ e same.
          put-right lo l e xs ys sorted (subst (λ m. bytes_lt m l ≡ false) (sym same) behind_l)
          ∙ (ap (λ r. xs ++ r) (f.put_part e same)
              ∙ sym (append_assoc xs f.before (put e f.part ++ f.behind)));
      replace = λ Q h' xs' grow q.
          rw (step, append_assoc xs f.before (xs' ++ f.behind))
            (link lo hi l ks h (set_at i h' hs) xs _ o b (grow lo (some l) h xs p)
              (f.replace Q h' xs' grow q));
      divide = λ Q k h' h'' xs' ys' grow o' b' q r.
          let (s, d) = f.divide Q k h' h'' xs' ys' grow o' b' q r in
          (
            rw step (search-behind k l ks i (f.over k o') s),
            rw (step, plus, append_assoc xs f.before ((xs' ++ ys') ++ f.behind))
                (link lo hi l (insert_at i k ks) h (insert_at (i + 1) h'' (set_at i h' hs)) xs _ o b
                  (grow lo (some l) h xs p) d),
          );
    }

-- In bounds, every name leads to a child.
pub focus :
    (P : Holds) (lo hi : Option Bytes) (ks hs : List Bytes) (es : List ChildEntry) (n : Bytes)
    → Sorts P
    → IsAbove lo n
    → IsBelow hi n
    → Chain P lo hi ks hs es
    → Focus P lo hi ks hs es n
focus P _ _ _ _ _ n sorts above below (last lo hi h es p) = Focus-last P lo hi h es n above below p
focus P _ _ _ _ _ n sorts above below (link lo hi l ks h hs xs ys o b p c) =
    elim (Bool-cases (bytes_lt n l)) [
      | inl before_l ↦ Focus-first P lo hi l ks h hs xs ys n sorts o b p c above before_l
      | inr behind_l ↦
          Focus-next P lo hi l ks h hs xs ys n sorts o b p c behind_l
            (focus P (some l) hi ks hs ys n sorts behind_l below c)
    ]
