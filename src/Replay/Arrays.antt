-- ===== src/Replay/Arrays.antt =====
-- What the buffers use of numpy: assignment to a slice of an array, and the generator's draws.
use hunter_kinodynamic_rl.Prelude.{
  All, ℕ, ◌<◌, ◌≡◌, refl, true, arith, List, [], ◌∷◌, ◌++◌, length, drop, replicate, get_elem?,
  Option, none, some, ◌==◌, if◌then◌else◌,
}
use hunter_kinodynamic_rl.Prelude.Result.{Result, ok, err, value_error, index_error, ◌>>=◌}

module _ {A : Type 0} where
  repeated : ℕ → List A → Result (List A)
  repeated k (x ∷ []) = ok (replicate k x)
  repeated k _ = err value_error

  -- The values that `a[:k] = xs` writes: one value is repeated, any other length is an error.
  unfoldable pub broadcast : ℕ → List A → Result (List A)
  unfolding repeated
  broadcast k xs = if length xs == k then ok xs else repeated k xs

  -- `a[:len(xs)] = xs`, over the old values.
  abbrev pub write_prefix : List A → List A → List A
  write_prefix xs old = xs ++ drop (length xs) old

  gathered : Result (List A) → Option A → Result (List A)
  gathered rest none = err index_error
  gathered rest (some a) = do xs ← rest; ok (a ∷ xs)

  -- `a[indices]`
  unfoldable pub gather : List A → List ℕ → Result (List A)
  unfolding gathered
  gather xs [] = ok []
  gather xs (i ∷ indices) = gathered (gather xs indices) (get_elem? xs i)

pub broadcast-length : {A : Type 0} (k : ℕ) (xs : List A) → length xs ≡ k → broadcast k xs ≡ ok xs
unfolding broadcast
broadcast-length k xs h = let t : (length xs == k) ≡ true = ground arith in rw t refl

-- `numpy.random.RandomState`, whose stream of draws is a parameter.
pub record RandomState : Type 1 where
  pub State : Type 0
  pub seeded : ℕ → State
  -- `randint(0, bound, size=count)`
  pub randint : ℕ → ℕ → State → List ℕ × State

-- numpy's documentation of `randint`: `count` values, each below the bound.
abbrev pub Draws : RandomState → Type 0
Draws random =
    (bound count : ℕ) (s : random.State)
    → 0 < bound
    → (length (random.randint bound count s).0 ≡ count)
      × All (λ i. i < bound) (random.randint bound count s).0
