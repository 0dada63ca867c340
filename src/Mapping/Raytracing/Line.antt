-- ===== src/Mapping/Raytracing/Line.antt =====
-- The loop ends, and its cells lead from the start to the end.
use native.Mathlib.Nat.{mul_comm}
use hunter_kinodynamic_rl.Prelude.{
  ℕ, zero, suc, ◌+◌, ◌<◌, ◌≡◌, refl, sym, subst, ◌∙◌, inl, inr, true, false, ◌&&◌, some, List, [],
  ◌∷◌, Bool-cases, arith,
}
use hunter_kinodynamic_rl.Prelude.Int.{ℤ, pos, eq_ℤ, eq_ℤ→eq, ◌-ℤ◌}
use hunter_kinodynamic_rl.Mapping.Raytracing.{
  Cell, gap, Ray, after_row, after_column, next_row, next_column, walk, ray, bresenham_line,
}
use hunter_kinodynamic_rl.Mapping.Raytracing.Distances.{ -ℤ_parts, eq_ℤ-gap, direction-Leads}
use hunter_kinodynamic_rl.Mapping.Raytracing.Rounds.{IsOnRay, Toward, step-Next}

-- The cells lead from `p` to `q`.
abbrev pub Joins : Cell → Cell → List Cell → Type 0
Joins q p [] = ⊥
Joins q p (x ∷ []) = (x ≡ p) × (p ≡ q)
Joins q p (x ∷ y ∷ ys) = (x ≡ p) × (Toward q p y × Joins q y (y ∷ ys))

add-Joins :
    (q x y : Cell) (cells : List Cell) → Toward q x y → Joins q y cells → Joins q x (x ∷ cells)
add-Joins q x y [] t j = absurd j
add-Joins q x y (z ∷ []) t (e, f) = (refl, (subst (λ v. Toward q x v) (sym e) t, (refl, e ∙ f)))
add-Joins q x y (z ∷ w ∷ cells) t (e, (u, j)) =
    (refl, (subst (λ v. Toward q x v) (sym e) t, (refl, (subst (λ v. Toward q v w) (sym e) u, j))))

at_end : (a b c d : ℤ) → (eq_ℤ a b && eq_ℤ c d) ≡ true → ◌≡◌ {A = Cell} (a, c) (b, d)
at_end a b c d h =
    let p : a ≡ b = eq_ℤ→eq a b (ground arith) in
    let q : c ≡ d = eq_ℤ→eq c d (ground arith) in λ i. (p i, q i)

not_yet : (a b c d : ℤ) → (eq_ℤ a b && eq_ℤ c d) ≡ false → 0 < gap b a + gap d c
not_yet a b c d h = elim (Bool-cases (eq_ℤ a b)) [
  | inl e ↦ let z = eq_ℤ-gap c d (ground arith) in omega (arith, z)
  | inr e ↦ let z = eq_ℤ-gap a b e in omega (arith, z)
]

walk-Joins :
    (fuel : ℕ) (k : Ray) (r c err : ℤ)
    → IsOnRay k r c err
    → gap k.r1 r + gap k.c1 c < fuel
    → (cells : List Cell) × (walk fuel k r c err ≡ some cells) × Joins (k.r1, k.c1) (r, c) cells
unfolding walk
walk-Joins zero k r c err i h = absurd (omega arith)
walk-Joins (suc fuel) k r c err i h = elim (Bool-cases (eq_ℤ r k.r1 && eq_ℤ c k.c1)) [
  | inl e ↦ ((r, c) ∷ [], rw e refl, (refl, at_end r k.r1 c k.c1 e))
  | inr e ↦
      let p : 0 < gap k.r1 r + gap k.c1 c = not_yet r k.r1 c k.c1 e in
      let (j, t) = step-Next k r c err i p in
      let (cells, q, s) =
        walk-Joins fuel k (next_row k err r) (next_column k err c)
          (after_column k err (after_row k err err)) j (omega (arith, t.nearer)) in
      ((r, c) ∷ cells, rw (e, q) refl, add-Joins (k.r1, k.c1) (r, c) _ cells t s)
]

start-IsOnRay :
    (r0 c0 r1 c1 : ℤ) → IsOnRay (ray r0 c0 r1 c1) r0 c0 (pos (gap r1 r0) -ℤ pos (gap c1 c0))
start-IsOnRay r0 c0 r1 c1 = record {
  rows = direction-Leads r0 r1;
  columns = direction-Leads c0 c1;
  row_bound = omega arith;
  column_bound = omega arith;
  balance =
      omega (arith, -ℤ_parts (pos (gap r1 r0)) (pos (gap c1 c0)), mul_comm (gap r1 r0) (gap c1 c0));
}

-- The loop ends within one round more than the distances of the ends, and its cells lead from one
-- end to the other: the first is the start, the last is the end, and each comes at most one row and
-- one column after the one before it, nearer to the end in one of them and farther in none.
pub bresenham_line-Joins :
    (r0 c0 r1 c1 : ℤ)
    → (cells : List Cell) × (bresenham_line r0 c0 r1 c1 ≡ some cells)
      × Joins (r1, c1) (r0, c0) cells
unfolding bresenham_line
bresenham_line-Joins r0 c0 r1 c1 =
    walk-Joins (suc (gap r1 r0 + gap c1 c0)) (ray r0 c0 r1 c1) r0 c0
      (pos (gap r1 r0) -ℤ pos (gap c1 c0)) (start-IsOnRay r0 c0 r1 c1) (omega arith)
