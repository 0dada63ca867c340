-- ===== src/Mapping/Raytracing/Rounds.antt =====
-- One round of the loop: what it keeps, and that it comes nearer to the end.
use native.Mathlib.Numerals.{unary_clauses}
use hunter_kinodynamic_rl.Prelude.{
  ℕ, suc, ◌+◌, ◌*◌, ◌≤◌, ◌<◌, ◌≡◌, inl, inr, true, false, Bool-cases, arith, ltb, ltb→lt,
}
use hunter_kinodynamic_rl.Prelude.Int.{ℤ, pos, pos_part, neg_part, ◌+ℤ◌, ◌-ℤ◌}
use hunter_kinodynamic_rl.Mapping.Raytracing.{
  Cell, gap, Ray, row_moves, column_moves, after_row, after_column, next_row, next_column,
}
use hunter_kinodynamic_rl.Mapping.Raytracing.Distances.{
  +ℤ_parts, -ℤ_parts, row_moves-true, row_moves-false, column_moves-true, column_moves-false, Leads,
  gap-step, gap_self, step-gap, step-Leads,
}

-- What the loop keeps: both directions lead to the end, and the error is that of the cell.
pub record IsOnRay (k : Ray) (r c err : ℤ) : Type 0 where
  pub rows : Leads r k.r1 k.sr
  pub columns : Leads c k.c1 k.sc
  pub row_bound : gap k.r1 r ≤ k.dr
  pub column_bound : gap k.c1 c ≤ k.dc
  pub balance : pos_part err + k.dr * gap k.c1 c + k.dc ≡ neg_part err + k.dr + k.dc * gap k.r1 r

-- `y` comes right after `x` on the way to `q`: at most one row and one column on, nearer in one of
-- them and farther in none.
pub record Toward (q x y : Cell) : Type 0 where
  pub row_step : gap y.0 x.0 ≤ 1
  pub column_step : gap y.1 x.1 ≤ 1
  pub row_nearer : gap q.0 y.0 ≤ gap q.0 x.0
  pub column_nearer : gap q.1 y.1 ≤ gap q.1 x.1
  pub nearer : gap q.0 y.0 + gap q.1 y.1 < gap q.0 x.0 + gap q.1 x.1

mul-suc : (n a b : ℕ) → a ≡ suc b → n * a ≡ n * b + n
mul-suc n a b e = rw e (simp unary_clauses (omega arith))

le-mul : (n a : ℕ) → 0 < a → n ≤ n * a
le-mul n a h = grind arith

mul-zero : (n a : ℕ) → a ≡ 0 → n * a ≡ 0
mul-zero n a e = grind arith

module _ (k : Ray) (r c err : ℤ) (i : IsOnRay k r c err)
    (open_end : 0 < gap k.r1 r + gap k.c1 c) where
  row_left : row_moves k.dc err ≡ true → 0 < gap k.r1 r
  row_left m = elim (Bool-cases (ltb 0 (gap k.r1 r))) [
    | inl p ↦ ltb→lt 0 (gap k.r1 r) p
    | inr z ↦
        let e : gap k.r1 r ≡ 0 = ground arith in
        absurd (
          omega (
            arith,
            i.balance,
            row_moves-true k.dc err m,
            mul-zero k.dc (gap k.r1 r) e,
            le-mul k.dr (gap k.c1 c) (omega (arith, open_end, e)),
          ))
  ]

  column_left : column_moves k.dr err ≡ true → 0 < gap k.c1 c
  column_left m = elim (Bool-cases (ltb 0 (gap k.c1 c))) [
    | inl p ↦ ltb→lt 0 (gap k.c1 c) p
    | inr z ↦
        let e : gap k.c1 c ≡ 0 = ground arith in
        absurd (
          omega (
            arith,
            i.balance,
            column_moves-true k.dr err m,
            mul-zero k.dr (gap k.c1 c) e,
            le-mul k.dc (gap k.r1 r) (omega (arith, open_end, e)),
          ))
  ]

  one_moves : row_moves k.dc err ≡ false → column_moves k.dr err ≡ false → ⊥
  one_moves m n = omega (
    arith,
    i.row_bound,
    i.column_bound,
    open_end,
    row_moves-false k.dc err m,
    column_moves-false k.dr err n,
  )

  abbrev pub Next : ℤ → ℤ → ℤ → Type 0
  Next r' c' err' = IsOnRay k r' c' err' × Toward (k.r1, k.c1) (r, c) (r', c')

  row_only : row_moves k.dc err ≡ true → Next (r +ℤ k.sr) c (err -ℤ pos k.dc)
  row_only m =
      let left = row_left m in
      let p = gap-step r k.r1 k.sr i.rows left in
      (
        record {
          rows = step-Leads r k.r1 k.sr i.rows left;
          columns = i.columns;
          row_bound = omega (arith, p, i.row_bound);
          column_bound = i.column_bound;
          balance = omega (
            arith,
            i.balance,
            -ℤ_parts err (pos k.dc),
            mul-suc k.dc (gap k.r1 r) (gap k.r1 (r +ℤ k.sr)) p,
          );
        },
        record {
          row_step = step-gap r k.r1 k.sr i.rows;
          column_step = gap_self c;
          row_nearer = omega (arith, p);
          column_nearer = omega arith;
          nearer = omega (arith, p);
        },
      )

  column_only : column_moves k.dr err ≡ true → Next r (c +ℤ k.sc) (err +ℤ pos k.dr)
  column_only m =
      let left = column_left m in
      let p = gap-step c k.c1 k.sc i.columns left in
      (
        record {
          rows = i.rows;
          columns = step-Leads c k.c1 k.sc i.columns left;
          row_bound = i.row_bound;
          column_bound = omega (arith, p, i.column_bound);
          balance = omega (
            arith,
            i.balance,
            +ℤ_parts err (pos k.dr),
            mul-suc k.dr (gap k.c1 c) (gap k.c1 (c +ℤ k.sc)) p,
          );
        },
        record {
          row_step = gap_self r;
          column_step = step-gap c k.c1 k.sc i.columns;
          row_nearer = omega arith;
          column_nearer = omega (arith, p);
          nearer = omega (arith, p);
        },
      )

  both :
      row_moves k.dc err ≡ true
      → column_moves k.dr err ≡ true
      → Next (r +ℤ k.sr) (c +ℤ k.sc) (err -ℤ pos k.dc +ℤ pos k.dr)
  both m n =
      let row = row_left m in
      let column = column_left n in
      let p = gap-step r k.r1 k.sr i.rows row in
      let q = gap-step c k.c1 k.sc i.columns column in
      (
        record {
          rows = step-Leads r k.r1 k.sr i.rows row;
          columns = step-Leads c k.c1 k.sc i.columns column;
          row_bound = omega (arith, p, i.row_bound);
          column_bound = omega (arith, q, i.column_bound);
          balance = omega (
            arith,
            i.balance,
            -ℤ_parts err (pos k.dc),
            +ℤ_parts (err -ℤ pos k.dc) (pos k.dr),
            mul-suc k.dc (gap k.r1 r) (gap k.r1 (r +ℤ k.sr)) p,
            mul-suc k.dr (gap k.c1 c) (gap k.c1 (c +ℤ k.sc)) q,
          );
        },
        record {
          row_step = step-gap r k.r1 k.sr i.rows;
          column_step = step-gap c k.c1 k.sc i.columns;
          row_nearer = omega (arith, p);
          column_nearer = omega (arith, q);
          nearer = omega (arith, p, q);
        },
      )

  pub step-Next :
      Next (next_row k err r) (next_column k err c) (after_column k err (after_row k err err))
  step-Next = elim (Bool-cases (row_moves k.dc err)) [
    | inl m ↦ elim (Bool-cases (column_moves k.dr err)) [
      | inl n ↦ rw (m, n) (both m n)
      | inr n ↦ rw (m, n) (row_only m)
    ]
    | inr m ↦ elim (Bool-cases (column_moves k.dr err)) [
      | inl n ↦ rw (m, n) (column_only n)
      | inr n ↦ absurd (one_moves m n)
    ]
  ]
