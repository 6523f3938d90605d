-- ===== src/Errors.antt =====
-- aeordb-lib/src/engine/errors.rs: the errors that the modelled code returns, and the result type.
-- The texts inside the errors are messages for people, and are left out.
use aeordb.Prelude.{ℕ, refl, Bool, true, false}

pub data EngineError : Type 0 where
  io_error invalid_magic corrupt_entry unexpected_eof not_found already_exists : EngineError
  range_query_not_supported json_parse_error reserved_user_id unsafe_query_field : EngineError
  patch_database invalid_input snapshot_writes_disabled durability_failure : EngineError
  shutting_down cyclic_symlink symlink_depth_exceeded : EngineError
  invalid_entry_version invalid_entry_type invalid_hash_algorithm : ℕ → EngineError

pub data EngineResult {ℓ} (A : Type ℓ) : Type ℓ where
  ok : A → EngineResult A
  err : EngineError → EngineResult A

infixl 5 ◌>>=◌ ◌>>◌
-- The `?` operator.
abbrev pub ◌>>=◌ {ℓ κ} :
    {A : Type ℓ} {B : Type κ} → EngineResult A → (A → EngineResult B) → EngineResult B
ok a >>= f = f a
err e >>= f = err e

abbrev pub ◌>>◌ {ℓ} : {B : Type ℓ} → EngineResult (Unit {0}) → EngineResult B → EngineResult B
m >> k = m >>= λ _. k

-- `if !test { return Err(e); }`
abbrev pub guard : Bool → EngineError → EngineResult (Unit {0})
guard true e = ok tt
guard false e = err e

-- A chain that succeeds has succeeded at its first step.
pub bind_inv {ℓ κ} :
    {A : Type ℓ} {B : Type κ} (m : EngineResult A) (f : A → EngineResult B) (b : B)
    → Path (EngineResult B) (m >>= f) (ok b)
    → (a : A) × Path (EngineResult A) m (ok a) × Path (EngineResult B) (f a) (ok b)
bind_inv (ok a) f b e = (a, refl, e)
bind_inv (err x) f b e = cc

pub ok_injective {ℓ} : {A : Type ℓ} (a b : A) → Path (EngineResult A) (ok a) (ok b) → Path A a b
ok_injective a b e = cc
