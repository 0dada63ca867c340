-- ===== src/Prelude/Exec.antt =====
-- Methods of one object: the object goes through, and stays as it was left when a call raises.
use hunter_kinodynamic_rl.Prelude.Tests.{if◌then◌else◌}
use mathlib.Core.Bool.{Bool}
use mathlib.Core.Path.{◌≡◌, refl}
use hunter_kinodynamic_rl.Prelude.Result.{Error, Result, ok, err}

abbrev pub Exec : Type 0 → Type 0 → Type 0
Exec S A = S → Result A × S

module _ {S : Type 0} where
  -- `if test: raise error`
  abbrev pub raise_if : (S → Bool) → Error → Exec S (Unit {0})
  raise_if test e s = (if test s then err e else ok tt, s)

  abbrev pub modify : (S → S) → Exec S (Unit {0})
  modify f s = (ok tt, f s)

module _ {S A : Type 0} where
  abbrev pub pure : A → Exec S A
  pure a s = (ok a, s)

  abbrev pub lift : (S → Result A) → Exec S A
  lift f s = (f s, s)

module _ {S A B : Type 0} where
  -- The result stands last, so that a call that waits on it is no function.
  abbrev pub continue : (A → Exec S B) → S → Result A → Result B × S
  continue f s (ok a) = f a s
  continue f s (err e) = (err e, s)

  infixl 5 ◌>>=◌ ◌>>◌
  abbrev pub ◌>>=◌ : Exec S A → (A → Exec S B) → Exec S B
  ◌>>=◌ m f s = continue f (m s).1 (m s).0

  abbrev pub ◌>>◌ : Exec S A → Exec S B → Exec S B
  m >> n = m >>= λ _. n

  -- To drop a result changes no state.
  pub continue-pure : (b : B) (s : S) (r : Result A) → (continue (λ _. pure b) s r).1 ≡ s
  continue-pure b s (ok a) = refl
  continue-pure b s (err e) = refl
