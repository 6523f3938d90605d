-- ===== src/BTree/Spec.antt =====
-- What a directory promises, for the B-tree of aeordb-lib/src/engine/btree.rs: a list of entries sorted
-- by name, with lookup, insertion and removal.
use aeordb.Prelude.{◌≡◌, true, false, Option, none, some, List, [], ◌∷◌, All, if◌then◌else◌}
use aeordb.Bytes.{Bytes, bytes_eq}
use aeordb.Strings.{bytes_lt}
use aeordb.Directory.{ChildEntry}

unfoldable pub lookup : List ChildEntry → Bytes → Option ChildEntry
lookup [] name = none
lookup (e ∷ es) name = if bytes_eq e.name name then some e else lookup es name

-- The entry takes the place of one with its name, or the place that its name has in the order.
unfoldable pub put : ChildEntry → List ChildEntry → List ChildEntry
put entry [] = entry ∷ []
put entry (e ∷ es) =
    if bytes_eq e.name entry.name
    then entry ∷ es
    else if bytes_lt entry.name e.name
    then entry ∷ e ∷ es
    else e ∷ put entry es

-- The bounds of the names of a subtree: the lower one is taken, the upper one is not, and none is
-- no bound.
abbrev pub IsAbove : Option Bytes → Bytes → Type 0
IsAbove none name = Unit {0}
IsAbove (some bound) name = bytes_lt name bound ≡ false

abbrev pub IsBelow : Option Bytes → Bytes → Type 0
IsBelow none name = Unit {0}
IsBelow (some bound) name = bytes_lt name bound ≡ true

-- Entries within bounds, each name after the one before it.
abbrev pub IsSorted : Option Bytes → Option Bytes → List ChildEntry → Type 0
IsSorted lo hi [] = Unit {0}
IsSorted lo hi (e ∷ es) =
    IsAbove lo e.name
    × IsBelow hi e.name
    × All (λ d. bytes_lt e.name d.name ≡ true) es
    × IsSorted lo hi es
