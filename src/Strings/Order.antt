-- ===== src/Strings/Order.antt =====
-- About the order of byte slices, and sets in it.
use aeordb.Prelude.{◌≡◌, refl, true, false, not, ◌||◌, none, List, [], ◌∷◌, arith}
use aeordb.Bytes.{Bytes, bytes_eq, bytes_eq_iff}
use aeordb.Strings.{bytes_lt, contains, insert, insert_all, StringMap, get, keys}

pub bytes_lt_total : (x y : Bytes) → bytes_eq x y ≡ false → bytes_lt x y ≡ not (bytes_lt y x)
unfolding bytes_lt bytes_eq
bytes_lt_total [] [] h = cc
bytes_lt_total [] (b ∷ y) h = refl
bytes_lt_total (a ∷ x) [] h = refl
bytes_lt_total (a ∷ x) (b ∷ y) h = ground (arith, bytes_lt_total x y)

pub bytes_lt_trans :
    (x y z : Bytes) → bytes_lt x y ≡ true → bytes_lt y z ≡ true → bytes_lt x z ≡ true
unfolding bytes_lt
bytes_lt_trans [] [] z h k = cc
bytes_lt_trans [] (b ∷ y) [] h k = cc
bytes_lt_trans [] (b ∷ y) (c ∷ z) h k = refl
bytes_lt_trans (a ∷ x) [] z h k = cc
bytes_lt_trans (a ∷ x) (b ∷ y) [] h k = cc
bytes_lt_trans (a ∷ x) (b ∷ y) (c ∷ z) h k = ground (arith, bytes_lt_trans x y z)

pub bytes_eq_sym : (x y : Bytes) → bytes_eq x y ≡ bytes_eq y x
unfolding bytes_eq
bytes_eq_sym [] [] = refl
bytes_eq_sym [] (b ∷ y) = refl
bytes_eq_sym (a ∷ x) [] = refl
bytes_eq_sym (a ∷ x) (b ∷ y) = ground (arith, bytes_eq_sym x y)

pub bytes_lt_irrefl : (x : Bytes) → bytes_lt x x ≡ false
unfolding bytes_lt
bytes_lt_irrefl [] = refl
bytes_lt_irrefl (a ∷ x) = ground (arith, bytes_lt_irrefl x)

pub contains-insert :
    (p q : Bytes) (l : List Bytes) → contains (insert p l) q ≡ (bytes_eq p q || contains l q)
unfolding contains insert
contains-insert p q [] = refl
contains-insert p q (r ∷ l) = ground (arith, contains-insert p q l, bytes_eq_iff p r)

pub contains-insert_all :
    (ps l : List Bytes) (q : Bytes) → contains (insert_all ps l) q ≡ (contains ps q || contains l q)
unfolding insert_all contains
contains-insert_all [] l q = refl
contains-insert_all (p ∷ ps) l q =
    ground (arith, contains-insert_all ps (insert p l) q, contains-insert p q l)

-- Every string of the list comes after `p`.
abbrev pub IsAfter : Bytes → List Bytes → Type 0
IsAfter p [] = Unit {0}
IsAfter p (q ∷ l) = (bytes_lt p q ≡ true) × IsAfter p l

abbrev pub IsSorted : List Bytes → Type 0
IsSorted [] = Unit {0}
IsSorted (p ∷ l) = IsAfter p l × IsSorted l

IsAfter-weaken : (p q : Bytes) (l : List Bytes) → bytes_lt p q ≡ true → IsAfter q l → IsAfter p l
IsAfter-weaken p q [] h a = tt
IsAfter-weaken p q (r ∷ l) h (b, a) = (bytes_lt_trans p q r h b, IsAfter-weaken p q l h a)

insert-IsAfter :
    (p q : Bytes) (l : List Bytes) → bytes_lt q p ≡ true → IsAfter q l → IsAfter q (insert p l)
unfolding insert
insert-IsAfter p q [] h a = (h, tt)
insert-IsAfter p q (r ∷ l) h (b, a) = ground (arith, insert-IsAfter p q l h a)

pub insert-IsSorted : (p : Bytes) (l : List Bytes) → IsSorted l → IsSorted (insert p l)
unfolding insert
insert-IsSorted p [] s = (tt, tt)
insert-IsSorted p (q ∷ l) (a, s) =
    ground
      (arith, insert-IsSorted p l s, IsAfter-weaken p q l, insert-IsAfter p q l, bytes_lt_total p q)

pub insert_all-IsSorted : (ps l : List Bytes) → IsSorted l → IsSorted (insert_all ps l)
unfolding insert_all
insert_all-IsSorted [] l s = s
insert_all-IsSorted (p ∷ ps) l s = insert_all-IsSorted ps (insert p l) (insert-IsSorted p l s)

pub IsAfter-contains : (p : Bytes) (l : List Bytes) → IsAfter p l → contains l p ≡ false
unfolding contains
IsAfter-contains p [] a = refl
IsAfter-contains p (q ∷ l) (b, a) =
    ground (arith, IsAfter-contains p l a, bytes_eq_iff q p, bytes_lt_irrefl p)

pub get-contains {ℓ} :
    {V : Type ℓ} (m : StringMap V) (p : Bytes) → contains (keys m) p ≡ false → get m p ≡ none
unfolding contains get keys
get-contains [] p h = refl
get-contains ((q, v) ∷ m) p h = ground (arith, get-contains m p)
