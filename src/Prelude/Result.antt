-- ===== src/Prelude/Result.antt =====
-- Python exceptions as values. A method that mutates its object and may raise returns the result
-- beside the object: what was written before a raise stays written.
use mathlib.Core.Path.{◌≡◌, refl}
use mathlib.Core.Bool.{Bool, true, false}

-- The exception classes that the modelled code raises.
pub data Error : Type 0 where
  runtime_error value_error index_error key_error config_error : Error
  file_not_found file_exists zero_division : Error

pub data Result {ℓ} (A : Type ℓ) : Type ℓ where
  ok : A → Result A
  err : Error → Result A

-- `if not test: raise error`
abbrev pub guard : Bool → Error → Result (Unit {0})
guard test error = elim test [ true ↦ ok tt | false ↦ err error ]

module _ {ℓ κ} {A : Type ℓ} {B : Type κ} where
  infixl 5 ◌>>=◌
  abbrev pub ◌>>=◌ : Result A → (A → Result B) → Result B
  err error >>= rest = err error
  ok a >>= rest = rest a

module _ {ℓ} {B : Type ℓ} where
  infixl 5 ◌>>◌
  abbrev pub ◌>>◌ : Result (Unit {0}) → Result B → Result B
  err error >> next = err error
  ok _ >> next = next

module _ {A : Type 0} where
  -- The call returned.
  abbrev pub Returns : Result A → Type 0
  Returns (ok a) = Unit
  Returns (err e) = ⊥

  pub Returns-ok : (r : Result A) → Returns r → (a : A) × (r ≡ ok a)
  Returns-ok (ok a) h = (a, refl)
  Returns-ok (err e) h = absurd h
