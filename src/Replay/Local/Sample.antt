-- ===== src/Replay/Local/Sample.antt =====
-- `sample_indices`, `sample` and `valid_ratio` of `ReplayBuffer`.
use hunter_kinodynamic_rl.Prelude.{ℕ, ◌==◌, List, length, take, map, if◌then◌else◌}
use mathlib.Core.List.{foldl}
use hunter_kinodynamic_rl.Prelude.Result.{ok, runtime_error}
use hunter_kinodynamic_rl.Prelude.Exec.{Exec, pure, lift, raise_if, ◌>>=◌, ◌>>◌}
use hunter_kinodynamic_rl.Floats.{Floats, Float}
use hunter_kinodynamic_rl.Replay.Arrays.{RandomState, gather}
use hunter_kinodynamic_rl.Replay.Local.{Row, ReplayBuffer}

module _ ⦃M : Floats⦄ where
  open M use {zero_f, of_ℕ, sub, add, div}

  -- The returned arrays: `not_done` is computed, the others are the rows'.
  pub record Batch : Type 0 where
    pub rows : List Row
    pub not_done : List Float

  module _ ⦃R : RandomState⦄ where
    draw : ℕ → Exec ReplayBuffer (List ℕ)
    draw batch_size b =
        let (indices, rng) = R.randint b.ring.size batch_size b.rng in
        (ok indices, record b { rng = rng })

    unfoldable pub sample_indices : ℕ → Exec ReplayBuffer (List ℕ)
    unfolding draw
    sample_indices batch_size = do raise_if (λ b. b.ring.size == 0) runtime_error; draw batch_size

    unfoldable pub sample : ℕ → Exec ReplayBuffer Batch
    sample batch_size = do
      indices ← sample_indices batch_size
      rows ← lift (λ b. gather b.ring.rows indices)
      pure (record { rows = rows; not_done = map (λ row. sub (of_ℕ 1) row.base.done) rows })

    unfoldable pub valid_ratio : ReplayBuffer → Float
    valid_ratio b =
        if b.ring.size == 0
        then zero_f
        else div (foldl add zero_f (map (λ row. row.base.valid) (take b.ring.size b.ring.rows)))
            (of_ℕ (length (take b.ring.size b.ring.rows)))
