-- ===== src/Replay/Local/Add.antt =====
-- `ReplayBuffer.add`: the writes of a row in the order of the code, each of which may raise and
-- leave the ones before it.
use hunter_kinodynamic_rl.Prelude.{
  ℕ, min, ltb, Bool, true, false, Option, none, some, List, [], ◌∷◌, length, take, replicate, map,
  get_elem?, if◌then◌else◌,
}
use hunter_kinodynamic_rl.Prelude.Result.{Result, ok, err, index_error}
use hunter_kinodynamic_rl.Prelude.Exec.{Exec, pure, lift, modify, ◌>>=◌, ◌>>◌}
use hunter_kinodynamic_rl.Floats.{Floats, Float, flag}
use hunter_kinodynamic_rl.Replay.Arrays.{RandomState, broadcast, write_prefix}
use hunter_kinodynamic_rl.Replay.Ring.{push, overwrite}
use hunter_kinodynamic_rl.Replay.Local.{
  RiskTransition, no_label, BaseRow, AddedRow, Row, ReplayBuffer,
}

module _ ⦃M : Floats⦄ where
  open M use {zero_f, nan, of_ℕ, single}

  -- The arguments of `add`.
  pub record Transition : Type 0 where
    pub state : List Float
    pub action : List Float
    pub next_state : List Float
    pub reward : Float
    pub done : Bool
    pub risk : Option RiskTransition

  abbrev pub label_of : Option RiskTransition → RiskTransition
  label_of none = no_label
  label_of (some risk) = risk

  -- `1.0 if risk.valid else 0.0` and the target, which is NaN without a label.
  abbrev pub valid_of : Option Float → Float
  valid_of none = flag false
  valid_of (some target) = flag true

  abbrev pub target_of : Option Float → Float
  target_of none = nan
  target_of (some target) = single target

  abbrev singles : List Float → List Float
  singles xs = map single xs

  abbrev set_base : (BaseRow → BaseRow) → Exec Row (Unit {0})
  set_base f = modify (λ row. record row { base = f row.base })

  abbrev set_added : (AddedRow → AddedRow) → Exec Row (Unit {0})
  set_added f = modify (λ row. record row { added = f row.added })

  unfoldable pub write_core : ℕ → ℕ → Transition → Exec Row (Unit {0})
  write_core state_dim action_dim t = do
    state ← lift (λ _. broadcast state_dim (singles t.state))
    set_base (λ b. record b { state = state })
    action ← lift (λ _. broadcast action_dim (singles t.action))
    set_base (λ b. record b { action = action })
    next_state ← lift (λ _. broadcast state_dim (singles t.next_state))
    set_base
        (λ b. record b { next_state = next_state; reward = single t.reward; done = flag t.done })

  unfoldable pub write_label : RiskTransition → Exec Row (Unit {0})
  write_label risk = do
    set_base (λ b. record b {
      valid = valid_of risk.risk_target;
      risk_target = target_of risk.risk_target;
      min_clearance_m = single risk.min_clearance_m;
      ttc_sec = single risk.ttc_sec;
      collision_within_horizon = flag risk.collision_within_horizon;
      stopping_margin_m = single risk.stopping_margin_m;
      unrecoverable = flag risk.unrecoverable;
      safer_alternative_margin = single risk.safer_alternative_margin;
    })
    set_added (λ a. record a {
      steering_saturation = flag risk.steering_saturation;
      goal_progress_m = single risk.goal_progress_m;
    })

  unfoldable pub clear_candidates : ℕ → Exec Row (Unit {0})
  clear_candidates max_candidates = do
    set_base (λ b. record b {
      candidate_valid_mask = replicate max_candidates zero_f;
      candidate_kappa = replicate max_candidates zero_f;
      candidate_v_ref = replicate max_candidates zero_f;
      candidate_horizon = replicate max_candidates zero_f;
      candidate_risk = replicate max_candidates zero_f;
    })
    set_added (λ a. record a { candidate_goal_progress = replicate max_candidates zero_f })

  unfoldable pub write_progress : ℕ → List Float → Exec Row (Unit {0})
  write_progress n [] = pure tt
  write_progress n (x ∷ xs) = do
    progress ← lift (λ _. broadcast n (take n (singles (x ∷ xs))))
    set_added (λ a. record a {
      candidate_goal_progress = write_prefix progress a.candidate_goal_progress;
    })

  unfoldable pub write_candidates : ℕ → RiskTransition → Exec Row (Unit {0})
  unfolding write_progress
  write_candidates n risk = do
    kappa ← lift (λ _. broadcast n (take n (singles risk.candidate_kappa)))
    set_base (λ b. record b { candidate_kappa = write_prefix kappa b.candidate_kappa })
    v_ref ← lift (λ _. broadcast n (take n (singles risk.candidate_v_ref)))
    set_base (λ b. record b { candidate_v_ref = write_prefix v_ref b.candidate_v_ref })
    horizon ← lift (λ _. broadcast n (take n (singles risk.candidate_horizon)))
    set_base (λ b. record b { candidate_horizon = write_prefix horizon b.candidate_horizon })
    candidate_risk ← lift (λ _. broadcast n (take n (singles risk.candidate_risk)))
    set_base (λ b. record b { candidate_risk = write_prefix candidate_risk b.candidate_risk })
    write_progress n risk.candidate_goal_progress
    set_base (λ b. record b {
      candidate_valid_mask = write_prefix (replicate n (of_ℕ 1)) b.candidate_valid_mask;
    })

  unfoldable pub write_risk : ℕ → RiskTransition → Exec Row (Unit {0})
  write_risk max_candidates risk = do
    let n = min (length risk.candidate_kappa) max_candidates
    write_label risk
    clear_candidates max_candidates
    if ltb 0 n then write_candidates n risk else pure tt
    set_base (λ b. record b { actor_candidate_index = single (of_ℕ risk.actor_candidate_index) })

  module _ ⦃R : RandomState⦄ where
    unfoldable pub write_row : ReplayBuffer → Transition → Exec Row (Unit {0})
    write_row b t = do
      write_core b.state_dim b.action_dim t
      write_risk b.max_candidates (label_of t.risk)

    -- The pointer moves only after the last write.
    unfoldable pub kept : ReplayBuffer → Result (Unit {0}) → Row → Result (Unit {0}) × ReplayBuffer
    kept b (ok done) row = (ok tt, record b { ring = push row b.ring })
    kept b (err e) row = (err e, record b { ring = overwrite row b.ring })

    stored : ReplayBuffer → Transition → Option Row → Result (Unit {0}) × ReplayBuffer
    stored b t none = (err index_error, b)
    stored b t (some old) = let (r, row) = write_row b t old in kept b r row

    unfoldable pub add : Transition → Exec ReplayBuffer (Unit {0})
    unfolding stored
    add t b = stored b t (get_elem? b.ring.rows b.ring.ptr)
