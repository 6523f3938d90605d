-- ===== src/Prelude/Int.antt =====
-- Signed integers over the native numbers: `negsuc n` is -(n + 1). An `i64` of the source is such a
-- value.
use Prim.Native.Nat.{ℕ, suc, ◌+◌, ◌-◌, ◌<◌, ◌^◌}
use mathlib.Core.Bool.{Bool, false}
use mathlib.Core.Path.{◌≡◌}
use native.Mathlib.Omega.{arith}
use aeordb.Prelude.Tests.{ltb, if◌then◌else◌}

pub data ℤ : Type 0 where
  pos : ℕ → ℤ
  negsuc : ℕ → ℤ

abbrev pub pos_part : ℤ → ℕ
pos_part (pos n) = n
pos_part (negsuc n) = 0

abbrev pub neg_part : ℤ → ℕ
neg_part (pos n) = 0
neg_part (negsuc n) = suc n

abbrev pub ltb_ℤ : ℤ → ℤ → Bool
ltb_ℤ a b = ltb (pos_part a + neg_part b) (pos_part b + neg_part a)

-- The bit pattern of an `i64`, and the number of a bit pattern.
unfoldable pub to_bits : ℤ → ℕ
to_bits (pos n) = n
to_bits (negsuc n) = 2 ^ 64 - (n + 1)

unfoldable pub from_bits : ℕ → ℤ
from_bits n = if ltb n (2 ^ 63) then pos n else negsuc (2 ^ 64 - n - 1)

abbrev pub IsI64 : ℤ → Type 0
IsI64 (pos n) = n < 2 ^ 63
IsI64 (negsuc n) = n < 2 ^ 63

pub to_bits-lt : (z : ℤ) → IsI64 z → to_bits z < 2 ^ 64
unfolding to_bits
to_bits-lt (pos n) h = omega arith
to_bits-lt (negsuc n) h = omega arith

pub from_bits-to_bits : (z : ℤ) → IsI64 z → from_bits (to_bits z) ≡ z
unfolding to_bits from_bits
from_bits-to_bits (pos n) h = ground arith
from_bits-to_bits (negsuc n) h =
    let below : ltb (2 ^ 64 - (n + 1)) (2 ^ 63) ≡ false = ground arith in
    let same : 2 ^ 64 - (2 ^ 64 - (n + 1)) - 1 ≡ n = omega arith in rw (below, same)
