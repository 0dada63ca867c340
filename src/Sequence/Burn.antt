-- ===== src/Sequence/Burn.antt =====
-- The burn-in that `build` gives a window begins where the run of its reset epoch begins.
use hunter_kinodynamic_rl.Prelude.{
  ℕ, zero, suc, ◌≤◌, ◌<◌, ◌≡◌, sym, ap, subst, ◌≢◌, ◌⊎◌, ◌==◌, ==→eq, inl, inr, true, none, some,
  Option, List, get_elem?, Bool-cases, arith, ◌∙◌,
}
use hunter_kinodynamic_rl.Prelude.Int.{ℤ, eq_ℤ→eq, eq_ℤ_refl}
use hunter_kinodynamic_rl.Sequence.{is_epoch, same_epoch, burn}

same_epoch-some : (o : Option ℤ) (e : ℤ) → same_epoch o e ≡ true → o ≡ some e
same_epoch-some none e h = absurd (ground arith)
same_epoch-some (some x) e h = ap (λ y. some y) (eq_ℤ→eq x e h)

pub is_epoch-some : (xs : List ℤ) (e : ℤ) (i : ℕ) → is_epoch xs e i ≡ true → get_elem? xs i ≡ some e
is_epoch-some xs e i h = same_epoch-some (get_elem? xs i) e h

pub some-is_epoch : (xs : List ℤ) (e : ℤ) (i : ℕ) → get_elem? xs i ≡ some e → is_epoch xs e i ≡ true
some-is_epoch xs e i h = ap (λ o. same_epoch o e) h ∙ eq_ℤ_refl e

pub eq_or_ne : (a b : ℕ) → (a ≡ b) ⊎ (a ≢ b)
eq_or_ne a b = elim (Bool-cases (a == b)) [ inl e ↦ inl (==→eq a b e) | inr e ↦ inr (ground arith) ]

-- The entries from `lo` up to `hi` are all `e`.
abbrev pub Run : List ℤ → ℤ → ℕ → ℕ → Type 0
Run xs e lo hi = (i : ℕ) → lo ≤ i → i < hi → get_elem? xs i ≡ some e

-- The entry before `lo`, if there is one, is not `e`.
abbrev pub Begins : List ℤ → ℤ → ℕ → Type 0
Begins xs e lo = (i : ℕ) → suc i ≡ lo → get_elem? xs i ≢ some e

pub burn-Run :
    (xs : List ℤ) (e : ℤ) (s : ℕ)
    → (burn xs e s ≤ s) × (Run xs e (burn xs e s) s × Begins xs e (burn xs e s))
unfolding burn
burn-Run xs e zero = (omega arith, (λ i l h. absurd (omega arith), λ i h. absurd (omega arith)))
burn-Run xs e (suc s) = elim (Bool-cases (is_epoch xs e s)) [
  | inl t ↦
      let (b, (run, begins)) = burn-Run xs e s in
      rw t (
        omega (arith, b),
        (
          λ i l h. elim (eq_or_ne i s) [
            | inl q ↦ rw q (is_epoch-some xs e s t)
            | inr n ↦ run i l (omega (arith, n))
          ],
          begins,
        ),
      )
  | inr f ↦ rw f (
    omega arith,
    (
      λ i l h. absurd (omega arith),
      λ i q g.
          let k : i ≡ s = omega arith in
          let t = some-is_epoch xs e s (subst (λ j. get_elem? xs j ≡ some e) k g) in
          absurd (ground arith),
    ),
  )
]

-- There is one place where a run that reaches `s` begins.
pub burn_unique :
    (xs : List ℤ) (e : ℤ) (s b : ℕ) → b ≤ s → Run xs e b s → Begins xs e b → burn xs e s ≡ b
unfolding burn
burn_unique xs e zero b h run begins = omega arith
burn_unique xs e (suc s) b h run begins = elim (eq_or_ne b (suc s)) [
  | inl q ↦ elim (Bool-cases (is_epoch xs e s)) [
    | inl t ↦ absurd (begins s (sym q) (is_epoch-some xs e s t))
    | inr f ↦ rw f (sym q)
  ]
  | inr n ↦
      rw (some-is_epoch xs e s (run s (omega (arith, n)) (omega arith)))
        (burn_unique xs e s b (omega (arith, n)) (λ i l k. run i l (omega arith)) begins)
]
