-- ===== src/BTree/Proofs/Views.antt =====
-- About what is found in the store of aeordb-lib/src/engine/btree.rs after a batch was written.
use aeordb.Prelude.{
  ℕ, ◌≡◌, refl, sym, ap, ◌∙◌, inl, inr, some, [], ◌∷◌, ◌++◌, Bool-cases, if◌then◌else◌,
}
use aeordb.Bytes.{Bytes, bytes_eq, bytes_eq_iff, bytes_eq_refl}
use aeordb.Errors.{ok}
use aeordb.BTree.Store.{View, WriteBatch, written}

-- One entry that is written.
abbrev pub write_one : View → Bytes → Bytes → View
write_one view key value = λ k. if bytes_eq key k then ok (some (0, value)) else view k

-- No hash collides: a key that is written holds nothing, or what is written.
abbrev pub Agrees : View → WriteBatch → Type 0
Agrees view [] = Unit {0}
Agrees view ((key, value) ∷ batch) =
    ((x : ℕ × Bytes) → view key ≡ ok (some x) → x ≡ (0, value))
    × Agrees (write_one view key value) batch

-- What is found stays.
abbrev pub Extends : View → View → Type 0
Extends view view' = (k : Bytes) (x : ℕ × Bytes) → view k ≡ ok (some x) → view' k ≡ ok (some x)

pub written-append :
    (view : View) (a b : WriteBatch) → written view (a ++ b) ≡ written (written view a) b
written-append view [] b = refl
written-append view ((k, v) ∷ a) b = written-append (write_one view k v) a b

pub Agrees-append :
    (view : View) (a b : WriteBatch)
    → Agrees view (a ++ b)
    → Agrees view a × Agrees (written view a) b
Agrees-append view [] b h = (tt, h)
Agrees-append view ((k, v) ∷ a) b (here, h) =
    let (p, q) = Agrees-append (write_one view k v) a b h in ((here, p), q)

write_one-Extends :
    (view : View) (key value : Bytes)
    → ((x : ℕ × Bytes) → view key ≡ ok (some x) → x ≡ (0, value))
    → Extends view (write_one view key value)
write_one-Extends view key value h k x e = elim (Bool-cases (bytes_eq key k)) [
  | inl same ↦
      let eq = (bytes_eq_iff key k).0 same in
      rw same (ap (λ y. ok (some y)) (sym (h x (ap view eq ∙ e))))
  | inr different ↦ rw different e
]

pub written-Extends :
    (view : View) (batch : WriteBatch) → Agrees view batch → Extends view (written view batch)
written-Extends view [] h k x e = e
written-Extends view ((key, value) ∷ batch) (here, h) k x e =
    written-Extends (write_one view key value) batch h k x
      (write_one-Extends view key value here k x e)

-- A key that was written is found.
pub written-found :
    (view : View) (key value : Bytes) (batch : WriteBatch)
    → Agrees view ((key, value) ∷ batch)
    → written view ((key, value) ∷ batch) key ≡ ok (some (0, value))
written-found view key value batch (here, h) =
    written-Extends (write_one view key value) batch h key (0, value) (rw (bytes_eq_refl key))
