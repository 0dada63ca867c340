-- ===== src/Prelude/Slices.antt =====
-- Slices of lists: what `take`, `drop`, `set` and `++` do to one another.
use Prim.Native.Nat.{ℕ, zero, suc, ◌+◌, ◌<◌, ◌≤◌}
use mathlib.Core.Path.{◌≡◌, refl, ap}
use mathlib.Core.List.{List, [], ◌∷◌, ◌++◌}
use native.Mathlib.Omega.{arith}
use hunter_kinodynamic_rl.Prelude.Lists.{length, set, take, drop}

module _ {ℓ} {A : Type ℓ} where
  pub take-set :
      (xs : List A) (i : ℕ) (v : A)
      → i < length xs
      → take (suc i) (set xs i v) ≡ take i xs ++ v ∷ []
  take-set [] i v h = elim h [ ]
  take-set (x ∷ xs) zero v h = refl
  take-set (x ∷ xs) (suc i) v h = ap (λ ys. x ∷ ys) (take-set xs i v (omega arith))

  pub drop-set : (xs : List A) (i : ℕ) (v : A) → drop (suc i) (set xs i v) ≡ drop (suc i) xs
  drop-set [] i v = refl
  drop-set (x ∷ xs) zero v = refl
  drop-set (x ∷ xs) (suc i) v = drop-set xs i v

  pub set-last :
      (xs : List A) (i : ℕ) (v : A) → i + 1 ≡ length xs → set xs i v ≡ take i xs ++ v ∷ []
  set-last [] i v h = absurd (omega arith)
  set-last (x ∷ []) zero v h = refl
  set-last (x ∷ y ∷ ys) zero v h = absurd (omega arith)
  set-last (x ∷ xs) (suc i) v h = ap (λ ys. x ∷ ys) (set-last xs i v (omega arith))

  pub drop-all : (n : ℕ) (xs : List A) → length xs ≤ n → drop n xs ≡ []
  drop-all zero [] h = refl
  drop-all zero (x ∷ xs) h = absurd (omega arith)
  drop-all (suc n) [] h = refl
  drop-all (suc n) (x ∷ xs) h = drop-all n xs (omega arith)

  -- The first of the entries past `i`.
  pub drop-tail : (i : ℕ) (xs : List A) → drop 1 (drop i xs) ≡ drop (suc i) xs
  drop-tail zero [] = refl
  drop-tail zero (x ∷ xs) = refl
  drop-tail (suc i) [] = refl
  drop-tail (suc i) (x ∷ xs) = drop-tail i xs

  pub drop-append : (n : ℕ) (xs ys : List A) → n ≤ length xs → drop n (xs ++ ys) ≡ drop n xs ++ ys
  drop-append zero xs ys h = refl
  drop-append (suc n) [] ys h = absurd (omega arith)
  drop-append (suc n) (x ∷ xs) ys h = drop-append n xs ys (omega arith)

  pub append_assoc : (xs ys zs : List A) → (xs ++ ys) ++ zs ≡ xs ++ (ys ++ zs)
  append_assoc [] ys zs = refl
  append_assoc (x ∷ xs) ys zs = ap (λ ws. x ∷ ws) (append_assoc xs ys zs)

  pub append-nil : (xs : List A) → xs ++ [] ≡ xs
  append-nil [] = refl
  append-nil (x ∷ xs) = ap (λ ys. x ∷ ys) (append-nil xs)

  pub drop-drop : (k d m : ℕ) (xs : List A) → m ≡ d + k → drop k (drop d xs) ≡ drop m xs
  drop-drop k zero m xs e = ap (λ i. drop i xs) (omega arith)
  drop-drop k (suc d) zero xs e = absurd (omega arith)
  drop-drop zero (suc d) (suc m) [] e = refl
  drop-drop (suc k) (suc d) (suc m) [] e = refl
  drop-drop k (suc d) (suc m) (x ∷ xs) e = drop-drop k d m xs (omega arith)

  pub take-append : (n : ℕ) (xs ys : List A) → length xs ≡ n → take n (xs ++ ys) ≡ xs
  take-append zero [] [] h = refl
  take-append zero [] (y ∷ ys) h = refl
  take-append zero (x ∷ xs) ys h = absurd (omega arith)
  take-append (suc n) [] ys h = absurd (omega arith)
  take-append (suc n) (x ∷ xs) ys h = ap (λ zs. x ∷ zs) (take-append n xs ys (omega arith))

  pub take-all : (n : ℕ) (xs : List A) → length xs ≤ n → take n xs ≡ xs
  take-all zero [] h = refl
  take-all zero (x ∷ xs) h = absurd (omega arith)
  take-all (suc n) [] h = refl
  take-all (suc n) (x ∷ xs) h = ap (λ ys. x ∷ ys) (take-all n xs (omega arith))
