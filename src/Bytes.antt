-- ===== src/Bytes.antt =====
-- Bytes as numbers below 256, little-endian integers (`to_le_bytes`, `from_le_bytes`) and slices.
pub mod Checksum
pub mod File
pub mod Readers
use aeordb.Prelude.{
  ℕ, zero, suc, ◌+◌, ◌*◌, ◌/◌, ◌%◌, ◌^◌, ◌<◌, ◌≡◌, ◌↔◌, refl, ap, sym, ◌∙◌, Bool, true, false, ◌&&◌,
  List, [], ◌∷◌, length, get_or, take, drop, All, take-append, drop-append, ◌++◌, arith, ◌==◌, ◌-◌,
  min, replicate, ltb, if◌then◌else◌, take_all, length-take, length-append, length-replicate,
}
use native.Mathlib.Nat.{pow-suc, zero-add, suc-add}

abbrev pub Bytes : Type 0
Bytes = List ℕ

abbrev pub IsByte : ℕ → Type 0
IsByte b = b < 256

-- `n.to_le_bytes()` of an unsigned integer of `w` bytes.
abbrev pub to_le_bytes : ℕ → ℕ → Bytes
to_le_bytes zero n = []
to_le_bytes (suc w) n = n % 256 ∷ to_le_bytes w (n / 256)

abbrev pub from_le_bytes : Bytes → ℕ
from_le_bytes [] = 0
from_le_bytes (b ∷ bs) = b + 256 * from_le_bytes bs

-- `data[i]`, within bounds.
abbrev pub byte_at : Bytes → ℕ → ℕ
byte_at bytes i = get_or bytes i 0

-- `&data[offset..offset + len]`, within bounds.
abbrev pub slice : Bytes → ℕ → ℕ → Bytes
slice bytes offset len = take len (drop offset bytes)

pub length-to_le_bytes : (w n : ℕ) → length (to_le_bytes w n) ≡ w
length-to_le_bytes zero n = refl
length-to_le_bytes (suc w) n = ap suc (length-to_le_bytes w (n / 256))

pub to_le_bytes-IsByte : (w n : ℕ) → All IsByte (to_le_bytes w n)
to_le_bytes-IsByte zero n = tt
to_le_bytes-IsByte (suc w) n = (omega arith, to_le_bytes-IsByte w (n / 256))

pub from_le_bytes-to_le_bytes : (w n : ℕ) → n < 256 ^ w → from_le_bytes (to_le_bytes w n) ≡ n
from_le_bytes-to_le_bytes zero n h = omega arith
from_le_bytes-to_le_bytes (suc w) n h =
    omega (arith, from_le_bytes-to_le_bytes w (n / 256) omega (arith, pow-suc 256 w))

pub to_le_bytes-from_le_bytes :
    (bs : Bytes) → All IsByte bs → to_le_bytes (length bs) (from_le_bytes bs) ≡ bs
to_le_bytes-from_le_bytes [] h = refl
to_le_bytes-from_le_bytes (b ∷ bs) (hb, hbs) =
    let n = from_le_bytes bs in
    let low : (b + 256 * n) % 256 ≡ b = omega arith in
    let high : (b + 256 * n) / 256 ≡ n = omega arith in
    rw (low, high) (ap (λ l. b ∷ l) (to_le_bytes-from_le_bytes bs hbs))

-- `==` of two byte slices.
unfoldable pub bytes_eq : Bytes → Bytes → Bool
bytes_eq [] [] = true
bytes_eq [] (b ∷ bs) = false
bytes_eq (a ∷ as') [] = false
bytes_eq (a ∷ as') (b ∷ bs) = (a == b) && bytes_eq as' bs

bytes_eq→eq : (x y : Bytes) → bytes_eq x y ≡ true → x ≡ y
unfolding bytes_eq
bytes_eq→eq [] [] h = refl
bytes_eq→eq [] (b ∷ bs) h = ground arith
bytes_eq→eq (a ∷ as') [] h = ground arith
bytes_eq→eq (a ∷ as') (b ∷ bs) h = ground (arith, bytes_eq→eq as' bs)

pub bytes_eq_refl : (x : Bytes) → bytes_eq x x ≡ true
unfolding bytes_eq
bytes_eq_refl [] = refl
bytes_eq_refl (a ∷ as') = ground (arith, bytes_eq_refl as')

pub bytes_eq_iff : (x y : Bytes) → (bytes_eq x y ≡ true) ↔ (x ≡ y)
bytes_eq_iff x y = (bytes_eq→eq x y, λ e. rw e (bytes_eq_refl y))

drop-nil {ℓ} : {A : Type ℓ} (n : ℕ) → drop {A = A} n [] ≡ []
drop-nil zero = refl
drop-nil (suc n) = refl

pub drop-add {ℓ} : {A : Type ℓ} (a b : ℕ) (xs : List A) → drop (a + b) xs ≡ drop b (drop a xs)
drop-add zero b xs = rw zero-add
drop-add (suc a) b [] = drop-nil (suc a + b) ∙ sym (drop-nil b)
drop-add (suc a) b (x ∷ xs) = rw suc-add (drop-add a b xs)

-- Reading what stands at a cursor: the bytes themselves, and what the next cursor sees.
pub at_slice :
    (bytes xs rest : Bytes) (cursor n : ℕ)
    → length xs ≡ n
    → drop cursor bytes ≡ xs ++ rest
    → (slice bytes cursor n ≡ xs) × (drop (cursor + n) bytes ≡ rest)
at_slice bytes xs rest cursor n len at =
    rw (drop-add cursor n bytes, at, ← len) (take-append xs rest, drop-append xs rest)

pub at_byte :
    (bytes : Bytes) (b : ℕ) (rest : Bytes) (cursor : ℕ)
    → drop cursor bytes ≡ b ∷ rest
    → (byte_at bytes cursor ≡ b) × (drop (cursor + 1) bytes ≡ rest)
at_byte [] b rest zero at = cc
at_byte [] b rest (suc cursor) at = cc
at_byte (x ∷ bytes) b rest zero at = ground arith
at_byte (x ∷ bytes) b rest (suc cursor) at = rw suc-add (at_byte bytes b rest cursor at)

-- The hash, cut or filled with zeros to `hash_length` bytes.
unfoldable pub fitted_hash : ℕ → Bytes → Bytes
fitted_hash hash_length hash =
    let copied = take (min hash_length (length hash)) hash in
    if ltb (length hash) hash_length
    then copied ++ replicate (hash_length - length hash) 0
    else copied

pub fitted_hash-eq : (hl : ℕ) (hash : Bytes) → length hash ≡ hl → fitted_hash hl hash ≡ hash
unfolding fitted_hash
fitted_hash-eq hl hash e = ground (arith, take_all hash)

pub length-fitted_hash : (hl : ℕ) (hash : Bytes) → length (fitted_hash hl hash) ≡ hl
unfolding fitted_hash
length-fitted_hash hl hash =
    let copied = take (min hl (length hash)) hash in
    ground (
      arith,
      length-take (min hl (length hash)) hash,
      length-append copied (replicate (hl - length hash) 0),
      length-replicate {A = ℕ} (hl - length hash) 0,
    )
