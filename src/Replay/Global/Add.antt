-- ===== src/Replay/Global/Add.antt =====
-- `GlobalReplayBuffer.add`: the guard on the mode and the writes in the order of the code, each of
-- which may raise and leave the ones before it.
use hunter_kinodynamic_rl.Prelude.{
  ltb, Bool, Option, none, some, [], ◌∷◌, String, get_elem?, if◌then◌else◌,
}
use hunter_kinodynamic_rl.Prelude.Int.{ℤ}
use hunter_kinodynamic_rl.Prelude.Dict.{string_key}
use hunter_kinodynamic_rl.Prelude.Result.{Result, ok, err, value_error, index_error}
use hunter_kinodynamic_rl.Prelude.Exec.{Exec, pure, lift, modify, ◌>>=◌, ◌>>◌}
use hunter_kinodynamic_rl.Floats.{Floats, Float, flag}
use hunter_kinodynamic_rl.Hierarchy.Subgoal.Status.{SubgoalStatus}
use hunter_kinodynamic_rl.Replay.Arrays.{RandomState}
use hunter_kinodynamic_rl.Replay.Ring.{push, overwrite}
use hunter_kinodynamic_rl.Replay.Global.{
  Tensors, Dims, Observation, GlobalRow, GlobalReplayBuffer, encode_failure_reason,
}

module _ ⦃M : Floats⦄ ⦃T : Tensors⦄ where
  open M use {zero_f, of_ℕ, single, mul, div, lt}

  pub record GlobalTransition : Type 0 where
    pub obs : Observation
    pub next_obs : Observation
    pub action : ℤ
    pub option_reward : Float
    pub mission_done : Bool
    pub subgoal_success : Bool
    pub failure_reason : Option SubgoalStatus
    pub local_steps : ℤ
    pub exploration_gain : Float
    pub risk_integral : Float

  -- `np.clip(x, 0, 255)`
  abbrev pub clip_byte : Float → Float
  clip_byte x = if lt x zero_f then zero_f else if lt (of_ℕ 255) x then of_ℕ 255 else x

  abbrev pub quantize_map : T.Array → T.Array
  quantize_map map = T.each (λ x. clip_byte (T.round (single (mul (single x) (of_ℕ 255))))) map

  abbrev pub dequantize_map : T.Array → T.Array
  dequantize_map map = T.each (λ x. single (div (single x) (of_ℕ 255))) map

  abbrev pub singles : T.Array → T.Array
  singles a = T.each single a

  abbrev set_now : (Observation → Observation) → Exec GlobalRow (Unit {0})
  set_now f = modify (λ row. record row { now = f row.now })

  abbrev set_next : (Observation → Observation) → Exec GlobalRow (Unit {0})
  set_next f = modify (λ row. record row { next = f row.next })

  unfoldable pub write_observations : Dims → GlobalTransition → Exec GlobalRow (Unit {0})
  write_observations d t = do
    map ← lift (λ _. T.fit d.map_shape (quantize_map t.obs.map_tensor))
    set_now (λ o. record o { map_tensor = map })
    next_map ← lift (λ _. T.fit d.map_shape (quantize_map t.next_obs.map_tensor))
    set_next (λ o. record o { map_tensor = next_map })
    scalars ← lift (λ _. T.fit (d.n_scalars ∷ []) (singles t.obs.scalar_tensor))
    set_now (λ o. record o { scalar_tensor = scalars })
    next_scalars ← lift (λ _. T.fit (d.n_scalars ∷ []) (singles t.next_obs.scalar_tensor))
    set_next (λ o. record o { scalar_tensor = next_scalars })
    features ←
        lift (λ _.
          T.fit (d.n_candidates ∷ d.n_candidate_features ∷ []) (singles t.obs.candidate_tensor))
    set_now (λ o. record o { candidate_tensor = features })
    next_features ← lift (λ _.
        T.fit (d.n_candidates ∷ d.n_candidate_features ∷ []) (singles t.next_obs.candidate_tensor))
    set_next (λ o. record o { candidate_tensor = next_features })
    mask ← lift (λ _. T.fit (d.n_candidates ∷ []) t.obs.action_mask)
    set_now (λ o. record o { action_mask = mask })
    next_mask ← lift (λ _. T.fit (d.n_candidates ∷ []) t.next_obs.action_mask)
    set_next (λ o. record o { action_mask = next_mask })

  unfoldable pub write_option : GlobalTransition → Exec GlobalRow (Unit {0})
  write_option t = do
    action ← lift (λ _. T.fit_int 64 t.action)
    modify (λ row. record row {
      action = action;
      option_reward = single t.option_reward;
      mission_done = flag t.mission_done;
      subgoal_success = flag t.subgoal_success;
    })
    code ← lift (λ _. T.fit_int 32 (encode_failure_reason t.failure_reason))
    modify (λ row. record row { failure_reason_code = code })
    local_steps ← lift (λ _. T.fit_int 32 t.local_steps)
    modify (λ row. record row {
      local_steps = local_steps;
      exploration_gain = single t.exploration_gain;
      risk_integral = single t.risk_integral;
    })

  unfoldable pub write_nodes : Dims → GlobalTransition → Exec GlobalRow (Unit {0})
  write_nodes d t = do
    nodes ← lift (λ _. T.fit (d.node_rows ∷ d.node_features ∷ []) (singles t.obs.node_tensor))
    set_now (λ o. record o { node_tensor = nodes })
    next_nodes ←
        lift (λ _. T.fit (d.node_rows ∷ d.node_features ∷ []) (singles t.next_obs.node_tensor))
    set_next (λ o. record o { node_tensor = next_nodes })
    mask ← lift (λ _. T.fit (d.node_rows ∷ []) t.obs.node_validity_mask)
    set_now (λ o. record o { node_validity_mask = mask })
    next_mask ← lift (λ _. T.fit (d.node_rows ∷ []) t.next_obs.node_validity_mask)
    set_next (λ o. record o { node_validity_mask = next_mask })

  unfoldable pub write_global_row : Dims → GlobalTransition → Exec GlobalRow (Unit {0})
  write_global_row d t = do
    write_observations d t
    write_option t
    if ltb 0 d.node_rows then write_nodes d t else pure tt

  module _ ⦃R : RandomState⦄ where
    -- The pointer moves only after the last write.
    abbrev pub keep_row :
        GlobalReplayBuffer → Result (Unit {0}) × GlobalRow → Result (Unit {0}) × GlobalReplayBuffer
    keep_row b (ok u, row) = (ok tt, record b { ring = push row b.ring })
    keep_row b (err e, row) = (err e, record b { ring = overwrite row b.ring })

    abbrev pub store :
        GlobalTransition
        → GlobalReplayBuffer
        → Option GlobalRow
        → Result (Unit {0}) × GlobalReplayBuffer
    store t b none = (err index_error, b)
    store t b (some old) = keep_row b (write_global_row b.dims t old)

    abbrev pub is_train : String → Bool
    is_train mode = string_key.same mode "train"

    unfoldable pub add_global : GlobalTransition → String → Exec GlobalReplayBuffer (Unit {0})
    add_global t mode b =
        if is_train mode then store t b (get_elem? b.ring.rows b.ring.ptr) else (err value_error, b)
