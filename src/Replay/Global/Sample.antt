-- ===== src/Replay/Global/Sample.antt =====
-- `sample_indices` and `sample` of `GlobalReplayBuffer`.
use hunter_kinodynamic_rl.Prelude.{ℕ, ◌==◌, List, map}
use hunter_kinodynamic_rl.Prelude.Result.{ok, runtime_error}
use hunter_kinodynamic_rl.Prelude.Exec.{Exec, pure, lift, raise_if, ◌>>=◌, ◌>>◌}
use hunter_kinodynamic_rl.Floats.{Floats}
use hunter_kinodynamic_rl.Replay.Arrays.{RandomState, gather}
use hunter_kinodynamic_rl.Replay.Global.{Tensors, Observation, GlobalRow, GlobalReplayBuffer}
use hunter_kinodynamic_rl.Replay.Global.Add.{dequantize_map}

module _ ⦃M : Floats⦄ ⦃T : Tensors⦄ where
  abbrev pub restore : Observation → Observation
  restore o = record o { map_tensor = dequantize_map o.map_tensor }

  -- The maps of a sampled row are floats again.
  abbrev pub restore_row : GlobalRow → GlobalRow
  restore_row row = record row { now = restore row.now; next = restore row.next }

  module _ ⦃R : RandomState⦄ where
    draw : ℕ → Exec GlobalReplayBuffer (List ℕ)
    draw batch_size b =
        let (indices, rng) = R.randint b.ring.size batch_size b.rng in
        (ok indices, record b { rng = rng })

    unfoldable pub global_indices : ℕ → Exec GlobalReplayBuffer (List ℕ)
    unfolding draw
    global_indices batch_size = do raise_if (λ b. b.ring.size == 0) runtime_error; draw batch_size

    unfoldable pub sample_global : ℕ → Exec GlobalReplayBuffer (List GlobalRow)
    sample_global batch_size = do
      indices ← global_indices batch_size
      rows ← lift (λ b. gather b.ring.rows indices)
      pure (map restore_row rows)
