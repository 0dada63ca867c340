-- ===== src/Sequence/Runs.antt =====
-- The test of a slice of reset epochs, and the runs of one epoch that it finds.
use hunter_kinodynamic_rl.Prelude.{
  ℕ, zero, suc, ◌+◌, ◌≤◌, ◌≡◌, refl, ap, ltb, ltb→lt, ◌↔◌, inl, inr, true, some, List, [], ◌∷◌,
  length, take, drop, Bool-cases, arith,
}
use hunter_kinodynamic_rl.Prelude.Int.{ℤ, eq_ℤ, eq_ℤ→eq}
use hunter_kinodynamic_rl.Sequence.{uniform}
use hunter_kinodynamic_rl.Sequence.Burn.{Run, some-is_epoch}

Run-later :
    (x : ℤ) (xs : List ℤ) (e : ℤ) (lo hi : ℕ) → Run xs e lo hi → Run (x ∷ xs) e (suc lo) (suc hi)
Run-later x xs e lo hi r zero l k = absurd (omega arith)
Run-later x xs e lo hi r (suc i) l k = r i (omega arith) (omega arith)

Run-cons : (x : ℤ) (xs : List ℤ) (e : ℤ) (n : ℕ) → x ≡ e → Run xs e 0 n → Run (x ∷ xs) e 0 (suc n)
Run-cons x xs e n q r zero l k = ap (λ y. some y) q
Run-cons x xs e n q r (suc i) l k = r i (omega arith) (omega arith)

pub Run-append :
    (xs : List ℤ) (e : ℤ) (lo mid hi : ℕ) → Run xs e lo mid → Run xs e mid hi → Run xs e lo hi
Run-append xs e lo mid hi r t i l k = elim (Bool-cases (ltb i mid)) [
  | inl a ↦ r i l (ltb→lt i mid a)
  | inr b ↦ t i (ground arith) k
]

pub uniform-Run :
    (xs : List ℤ) (e : ℤ) (n s : ℕ)
    → s + n ≤ length xs
    → (uniform e (take n (drop s xs)) ≡ true) ↔ Run xs e s (s + n)
uniform-Run [] e zero (suc s) h = absurd (omega arith)
uniform-Run [] e (suc n) (suc s) h = absurd (omega arith)
uniform-Run (x ∷ xs) e n (suc s) h =
    let (to, from) = uniform-Run xs e n s (omega arith) in
    (
      λ t i l k. Run-later x xs e s (s + n) (to t) i l (omega arith),
      λ r. from (λ i l k. r (suc i) (omega arith) (omega arith)),
    )
uniform-Run xs e zero zero h = (λ t i l k. absurd (omega arith), λ r. refl)
uniform-Run [] e (suc n) zero h = absurd (omega arith)
uniform-Run (x ∷ xs) e (suc n) zero h =
    let (to, from) = uniform-Run xs e n zero (omega arith) in
    (
      λ t i l k.
          Run-cons x xs e n (eq_ℤ→eq x e (ground arith))
            (λ j m o. to (ground arith) j m (omega arith)) i l (omega arith),
      λ r.
          let f = from (λ i l k. r (suc i) (omega arith) (omega arith)) in
          let g : eq_ℤ x e ≡ true = some-is_epoch (x ∷ xs) e 0 (r 0 (omega arith) (omega arith)) in
          rw (g, f) refl,
    )
