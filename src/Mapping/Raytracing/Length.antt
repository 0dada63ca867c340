-- ===== src/Mapping/Raytracing/Length.antt =====
-- How many cells a ray has.
use hunter_kinodynamic_rl.Prelude.{suc, ◌+◌, ◌≤◌, ◌<◌, ◌≡◌, ap, some, List, [], ◌∷◌, length, arith}
use hunter_kinodynamic_rl.Prelude.Int.{ℤ}
use hunter_kinodynamic_rl.Mapping.Raytracing.{Cell, gap, bresenham_line}
use hunter_kinodynamic_rl.Mapping.Raytracing.Line.{Joins, bresenham_line-Joins}

gap_triangle : (a b c : ℤ) → gap a c ≤ gap a b + gap b c
gap_triangle a b c = omega arith

gap-eq : (a b c : ℤ) → a ≡ b → gap c a ≡ gap c b
gap-eq a b c e = ap (gap c) e

gap_same : (a : ℤ) → gap a a ≡ 0
gap_same a = omega arith

Joins-length :
    (q p : Cell) (cells : List Cell)
    → Joins q p cells
    → (gap q.0 p.0 < length cells)
      × (gap q.1 p.1 < length cells)
      × (length cells ≤ suc (gap q.0 p.0 + gap q.1 p.1))
Joins-length q p [] j = absurd j
Joins-length q p (x ∷ []) (e, f) =
    let a = gap-eq p.0 q.0 q.0 (ap (λ v. v.0) f) in
    let b = gap-eq p.1 q.1 q.1 (ap (λ v. v.1) f) in
    (
      omega (arith, a, gap_same q.0),
      omega (arith, b, gap_same q.1),
      omega (arith, a, b, gap_same q.0, gap_same q.1),
    )
Joins-length q p (x ∷ y ∷ cells) (e, (t, j)) =
    let (a, b, c) = Joins-length q y (y ∷ cells) j in
    (
      omega (arith, a, t.row_step, gap_triangle q.0 y.0 p.0),
      omega (arith, b, t.column_step, gap_triangle q.1 y.1 p.1),
      omega (arith, c, t.nearer),
    )

-- A ray has more cells than either distance of its ends, and at most one more than both distances
-- together.
pub length-bresenham_line :
    (r0 c0 r1 c1 : ℤ)
    → (cells : List Cell) × (bresenham_line r0 c0 r1 c1 ≡ some cells)
      × (gap r1 r0 < length cells)
      × (gap c1 c0 < length cells)
      × (length cells ≤ suc (gap r1 r0 + gap c1 c0))
length-bresenham_line r0 c0 r1 c1 =
    let (cells, e, j) = bresenham_line-Joins r0 c0 r1 c1 in
    let (a, b, c) = Joins-length (r1, c1) (r0, c0) cells j in (cells, e, a, b, c)
