-- ===== src/BTree/Proofs/LeafSearch.antt =====
-- About `find` and `upsert` of `LeafNode` in aeordb-lib/src/engine/btree.rs: what a binary search does
-- is done along the list.
use aeordb.Prelude.{
  ◌+◌, ◌≤◌, ◌≡◌, inl, inr, refl, ap, ◌∙◌, Option, List, [], ◌∷◌, length, All, arith, Bool-cases,
}
use aeordb.Bytes.{Bytes, bytes_eq}
use aeordb.Strings.{bytes_lt}
use aeordb.Directory.{ChildEntry}
use aeordb.BTree.{Search, found, missing, binary_search, next_place, names}
use aeordb.BTree.Leaf.{find_at, upsert_at}
use aeordb.BTree.Spec.{lookup, put, IsSorted}
use aeordb.BTree.Proofs.Entries.{lookup-IsAfter, IsAfter-weaken}

upsert_at-next :
    (d e : ChildEntry) (es : List ChildEntry) (s : Search)
    → (upsert_at (d ∷ es) e (next_place s)).0 ≡ d ∷ (upsert_at es e s).0
upsert_at-next d e es (found i) = refl
upsert_at-next d e es (missing i) = refl

pub upsert-put :
    (e : ChildEntry) (es : List ChildEntry)
    → (upsert_at es e (binary_search (names es) e.name)).0 ≡ put e es
unfolding binary_search put
upsert-put e [] = refl
upsert-put e (d ∷ es) = elim (Bool-cases (bytes_eq d.name e.name)) [
  | inl same ↦ rw same
  | inr different ↦ elim (Bool-cases (bytes_lt e.name d.name)) [
    | inl before ↦ rw (different, before)
    | inr behind ↦
        rw (different, behind)
          (upsert_at-next d e es (binary_search (names es) e.name)
            ∙ ap (λ l. d ∷ l) (upsert-put e es))
  ]
]

find_at-next :
    (d : ChildEntry) (es : List ChildEntry) (s : Search)
    → find_at (d ∷ es) (next_place s) ≡ find_at es s
find_at-next d es (found i) = refl
find_at-next d es (missing i) = refl

pub find-lookup :
    (lo hi : Option Bytes) (es : List ChildEntry) (n : Bytes)
    → IsSorted lo hi es
    → find_at es (binary_search (names es) n) ≡ lookup es n
unfolding binary_search lookup
find-lookup lo hi [] n s = refl
find-lookup lo hi (d ∷ es) n (a, b, after, s) = elim (Bool-cases (bytes_eq d.name n)) [
  | inl same ↦ rw same
  | inr different ↦ elim (Bool-cases (bytes_lt n d.name)) [
    | inl before ↦
        rw (different, before, lookup-IsAfter n es (IsAfter-weaken n d.name es before after))
    | inr behind ↦
        rw (different, behind)
          (find_at-next d es (binary_search (names es) n) ∙ find-lookup lo hi es n s)
  ]
]

pub length-put : (e : ChildEntry) (es : List ChildEntry) → length (put e es) ≤ length es + 1
unfolding put
length-put e [] = omega arith
length-put e (d ∷ es) = ground (arith, length-put e es)

pub All-put {κ} :
    (P : ChildEntry → Type κ) (e : ChildEntry) (es : List ChildEntry)
    → P e
    → All P es
    → All P (put e es)
unfolding put
All-put P e [] p a = (p, tt)
All-put P e (d ∷ es) p (q, a) = elim (Bool-cases (bytes_eq d.name e.name)) [
  | inl same ↦ rw same (p, a)
  | inr different ↦ elim (Bool-cases (bytes_lt e.name d.name)) [
    | inl before ↦ rw (different, before) (p, (q, a))
    | inr behind ↦ rw (different, behind) (q, All-put P e es p a)
  ]
]
