-- ===== src/BTree/Proofs/Names.antt =====
-- About the order of names, where aeordb-lib/src/engine/btree.rs compares them.
use aeordb.Prelude.{◌≡◌, ◌⊎◌, true, false, arith}
use aeordb.Bytes.{Bytes, bytes_eq, bytes_eq_iff}
use aeordb.Strings.{bytes_lt}
use aeordb.Strings.Order.{bytes_lt_total, bytes_lt_trans, bytes_lt_irrefl}

pub lt_not_eq : (x y : Bytes) → bytes_lt x y ≡ true → bytes_eq x y ≡ false
lt_not_eq x y h = ground (arith, bytes_eq_iff x y, bytes_lt_irrefl y)

pub lt_asym : (x y : Bytes) → bytes_lt x y ≡ true → bytes_lt y x ≡ false
lt_asym x y h = ground (arith, bytes_lt_total x y, lt_not_eq x y)

pub le_cases : (x y : Bytes) → bytes_lt x y ≡ false → (bytes_eq y x ≡ true) ⊎ (bytes_lt y x ≡ true)
le_cases x y h = ground (arith, bytes_lt_total y x)

pub lt_le_trans : (x k n : Bytes) → bytes_lt x k ≡ true → bytes_lt n k ≡ false → bytes_lt x n ≡ true
lt_le_trans x k n h g = ground (arith, le_cases n k g, bytes_eq_iff k n, bytes_lt_trans x k n)

pub le_trans : (x k n : Bytes) → bytes_lt k x ≡ false → bytes_lt n k ≡ false → bytes_lt n x ≡ false
le_trans x k n h g = ground (
  arith,
  le_cases n k g,
  bytes_eq_iff k n,
  le_cases k x h,
  bytes_eq_iff x k,
  bytes_lt_trans x k n,
  lt_asym x n,
)
