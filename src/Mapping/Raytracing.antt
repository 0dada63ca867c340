-- ===== src/Mapping/Raytracing.antt =====
-- The cells of a ray over an integer grid, `bresenham_line` of navigation/mapping/raytracing.py.
pub mod Distances
pub mod Rounds
pub mod Line
pub mod Length
use hunter_kinodynamic_rl.Prelude.{
  ℕ, zero, suc, ◌+◌, ◌-◌, Bool, ◌&&◌, Option, none, some, List, [], ◌∷◌, if◌then◌else◌,
}
use hunter_kinodynamic_rl.Prelude.Int.{ℤ, pos, negsuc, pos_part, neg_part, ltb_ℤ, eq_ℤ, ◌+ℤ◌, ◌-ℤ◌}

abbrev pub Cell : Type 0
Cell = ℤ × ℤ

-- `abs(a - b)`
abbrev pub gap : ℤ → ℤ → ℕ
gap a b =
    (pos_part a + neg_part b - (pos_part b + neg_part a))
    + (pos_part b + neg_part a - (pos_part a + neg_part b))

-- `1 if a < b else -1`
abbrev pub direction : ℤ → ℤ → ℤ
direction a b = if ltb_ℤ a b then pos 1 else negsuc 0

-- The constants of one call: the end, the two distances and the two directions.
pub record Ray : Type 0 where
  pub r1 : ℤ
  pub c1 : ℤ
  pub dr : ℕ
  pub dc : ℕ
  pub sr : ℤ
  pub sc : ℤ

-- `2 * err > -dc`
unfoldable pub row_moves : ℕ → ℤ → Bool
row_moves dc err = ltb_ℤ (pos 0 -ℤ pos dc) (err +ℤ err)

-- `2 * err < dr`
unfoldable pub column_moves : ℕ → ℤ → Bool
column_moves dr err = ltb_ℤ (err +ℤ err) (pos dr)

abbrev pub after_row : Ray → ℤ → ℤ → ℤ
after_row k err e = if row_moves k.dc err then e -ℤ pos k.dc else e

abbrev pub after_column : Ray → ℤ → ℤ → ℤ
after_column k err e = if column_moves k.dr err then e +ℤ pos k.dr else e

abbrev pub next_row : Ray → ℤ → ℤ → ℤ
next_row k err r = if row_moves k.dc err then r +ℤ k.sr else r

abbrev pub next_column : Ray → ℤ → ℤ → ℤ
next_column k err c = if column_moves k.dr err then c +ℤ k.sc else c

abbrev pub add_cell : Cell → Option (List Cell) → Option (List Cell)
add_cell cell none = none
add_cell cell (some cells) = some (cell ∷ cells)

-- The `while True`, with fuel; `none` if it runs out. The tests of both moves read the error as it
-- was before either.
unfoldable pub walk : ℕ → Ray → ℤ → ℤ → ℤ → Option (List Cell)
walk zero k r c err = none
walk (suc fuel) k r c err =
    let further =
      walk fuel k (next_row k err r) (next_column k err c)
        (after_column k err (after_row k err err)) in
    if eq_ℤ r k.r1 && eq_ℤ c k.c1 then some ((r, c) ∷ []) else add_cell (r, c) further

abbrev pub ray : ℤ → ℤ → ℤ → ℤ → Ray
ray r0 c0 r1 c1 = record {
  r1 = r1;
  c1 = c1;
  dr = gap r1 r0;
  dc = gap c1 c0;
  sr = direction r0 r1;
  sc = direction c0 c1;
}

unfoldable pub bresenham_line : ℤ → ℤ → ℤ → ℤ → Option (List Cell)
bresenham_line r0 c0 r1 c1 =
    let k = ray r0 c0 r1 c1 in walk (suc (k.dr + k.dc)) k r0 c0 (pos k.dr -ℤ pos k.dc)
