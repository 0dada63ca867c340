-- ===== src/Tests/Mapping.antt =====
-- Rays over a small grid.
use hunter_kinodynamic_rl.Prelude.{suc, ◌+◌, ◌≤◌, ◌<◌, ◌≡◌, refl, some, List, [], ◌∷◌, length}
use hunter_kinodynamic_rl.Prelude.Int.{pos, negsuc}
use hunter_kinodynamic_rl.Mapping.Raytracing.{
  Cell, gap, row_moves, column_moves, walk, bresenham_line,
}
use hunter_kinodynamic_rl.Mapping.Raytracing.Line.{Joins, bresenham_line-Joins}
use hunter_kinodynamic_rl.Mapping.Raytracing.Length.{length-bresenham_line}

-- The ray back visits another cell.
there :
    bresenham_line (pos 0) (pos 0) (pos 1) (pos 2)
    ≡ some ((pos 0, pos 0) ∷ (pos 0, pos 1) ∷ (pos 1, pos 2) ∷ [])
unfolding bresenham_line walk row_moves column_moves
there = refl

back :
    bresenham_line (pos 1) (pos 2) (pos 0) (pos 0)
    ≡ some ((pos 1, pos 2) ∷ (pos 1, pos 1) ∷ (pos 0, pos 0) ∷ [])
unfolding bresenham_line walk row_moves column_moves
back = refl

bresenham_line-Joins_example :
    (cells : List Cell) × (bresenham_line (pos 0) (negsuc 1) (pos 1) (pos 2) ≡ some cells)
    × Joins (pos 1, pos 2) (pos 0, negsuc 1) cells
bresenham_line-Joins_example = bresenham_line-Joins (pos 0) (negsuc 1) (pos 1) (pos 2)

length-bresenham_line_example :
    (cells : List Cell) × (bresenham_line (pos 0) (negsuc 1) (pos 1) (pos 2) ≡ some cells)
    × (gap (pos 1) (pos 0) < length cells)
    × (gap (pos 2) (negsuc 1) < length cells)
    × (length cells ≤ suc (gap (pos 1) (pos 0) + gap (pos 2) (negsuc 1)))
length-bresenham_line_example = length-bresenham_line (pos 0) (negsuc 1) (pos 1) (pos 2)
