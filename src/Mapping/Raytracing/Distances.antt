-- ===== src/Mapping/Raytracing/Distances.antt =====
-- Distances on the grid, and what the two tests of a round say of the error.
use hunter_kinodynamic_rl.Prelude.{
  ℕ, suc, ◌+◌, ◌*◌, ◌≤◌, ◌<◌, ◌≡◌, inl, inr, true, false, Bool-cases, arith,
}
use hunter_kinodynamic_rl.Prelude.Int.{
  ℤ, pos, negsuc, pos_part, neg_part, ltb_ℤ, eq_ℤ, ◌+ℤ◌, ◌-ℤ◌, ◌≤ℤ◌,
}
use hunter_kinodynamic_rl.Mapping.Raytracing.{gap, direction, row_moves, column_moves}

pub +ℤ_parts :
    (a b : ℤ)
    → pos_part (a +ℤ b) + neg_part a + neg_part b ≡ neg_part (a +ℤ b) + pos_part a + pos_part b
+ℤ_parts a b = ground arith

pub -ℤ_parts :
    (a b : ℤ)
    → pos_part (a -ℤ b) + neg_part a + pos_part b ≡ neg_part (a -ℤ b) + pos_part a + neg_part b
-ℤ_parts a b = ground arith

pub gap-eq-zero : (a b : ℤ) → gap a b ≡ 0 → a ≡ b
gap-eq-zero a b h = ground arith

pub eq_ℤ-gap : (a b : ℤ) → eq_ℤ a b ≡ false → 0 < gap b a
eq_ℤ-gap a b h = ground arith

pub row_moves-true :
    (dc : ℕ) (err : ℤ) → row_moves dc err ≡ true → 2 * neg_part err < 2 * pos_part err + dc
unfolding row_moves
row_moves-true dc err h = ground (arith, -ℤ_parts (pos 0) (pos dc), +ℤ_parts err err)

pub row_moves-false :
    (dc : ℕ) (err : ℤ) → row_moves dc err ≡ false → 2 * pos_part err + dc ≤ 2 * neg_part err
unfolding row_moves
row_moves-false dc err h = ground (arith, -ℤ_parts (pos 0) (pos dc), +ℤ_parts err err)

pub column_moves-true :
    (dr : ℕ) (err : ℤ) → column_moves dr err ≡ true → 2 * pos_part err < 2 * neg_part err + dr
unfolding column_moves
column_moves-true dr err h = ground (arith, +ℤ_parts err err)

pub column_moves-false :
    (dr : ℕ) (err : ℤ) → column_moves dr err ≡ false → 2 * neg_part err + dr ≤ 2 * pos_part err
unfolding column_moves
column_moves-false dr err h = ground (arith, +ℤ_parts err err)

-- The direction leads from `a` towards `b`.
pub data Leads (a b : ℤ) : ℤ → Type 0 where
  up : a ≤ℤ b → Leads a b (pos 1)
  down : b ≤ℤ a → Leads a b (negsuc 0)

pub gap-step : (a b s : ℤ) → Leads a b s → 0 < gap b a → gap b a ≡ suc (gap b (a +ℤ s))
gap-step a b s (up h) p = omega (arith, +ℤ_parts a (pos 1))
gap-step a b s (down h) p = omega (arith, +ℤ_parts a (negsuc 0))

pub gap_self : (a : ℤ) → gap a a ≤ 1
gap_self a = omega arith

pub step-gap : (a b s : ℤ) → Leads a b s → gap (a +ℤ s) a ≤ 1
step-gap a b s (up h) = omega (arith, +ℤ_parts a (pos 1))
step-gap a b s (down h) = omega (arith, +ℤ_parts a (negsuc 0))

pub step-Leads : (a b s : ℤ) → Leads a b s → 0 < gap b a → Leads (a +ℤ s) b s
step-Leads a b s (up h) p = up (omega (arith, +ℤ_parts a (pos 1)))
step-Leads a b s (down h) p = down (omega (arith, +ℤ_parts a (negsuc 0)))

pub direction-Leads : (a b : ℤ) → Leads a b (direction a b)
direction-Leads a b = elim (Bool-cases (ltb_ℤ a b)) [
  | inl e ↦ rw e (up (ground arith))
  | inr e ↦ rw e (down (ground arith))
]
