-- ===== src/Floats.antt =====
-- Python's `float` and the functions of `math` that the navigation code calls on it. There are no
-- floating-point numbers in the logic, so the type and its operations are a parameter: nothing
-- below assumes a law of them, and a NaN answers every comparison with `false` if the
-- instance says so.
use hunter_kinodynamic_rl.Prelude.{ℕ, Bool, if◌then◌else◌}

pub record Floats : Type 1 where
  pub Carrier : Type 0
  pub zero_f : Carrier
  pub pi : Carrier
  pub of_ℕ : ℕ → Carrier
  pub add : Carrier → Carrier → Carrier
  pub sub : Carrier → Carrier → Carrier
  pub mul : Carrier → Carrier → Carrier
  pub div : Carrier → Carrier → Carrier
  -- Python's `%`
  pub modulo : Carrier → Carrier → Carrier
  pub abs : Carrier → Carrier
  pub hypot : Carrier → Carrier → Carrier
  pub atan2 : Carrier → Carrier → Carrier
  -- `a < b`, `a <= b`, `a == b`
  pub lt : Carrier → Carrier → Bool
  pub le : Carrier → Carrier → Bool
  pub eq : Carrier → Carrier → Bool
  pub nan : Carrier
  -- The nearest number of 32 bits, as an array of `float32` stores it.
  pub single : Carrier → Carrier
  -- `math.isfinite`
  pub is_finite : Carrier → Bool

module _ ⦃M : Floats⦄ where
  abbrev pub Float : Type 0
  Float = M.Carrier

  -- `max(a, b)` keeps the first argument unless the second is greater.
  abbrev pub max_f : Float → Float → Float
  max_f a b = if M.lt a b then b else a

  abbrev pub min_f : Float → Float → Float
  min_f a b = if M.lt b a then b else a

  -- `1.0 if b else 0.0`
  abbrev pub flag : Bool → Float
  flag b = if b then M.of_ℕ 1 else M.zero_f
