-- ===== src/Replay/Local.antt =====
-- rl/replay/buffer.py: the local replay buffer and its constructor.
pub mod Add
pub mod Sample
pub mod Archive
pub mod RoundTrip
pub mod Written
pub mod Latest
use hunter_kinodynamic_rl.Prelude.{
  ℕ, Bool, false, not, ◌||◌, Option, none, some, List, [], replicate, String,
}
use hunter_kinodynamic_rl.Prelude.Int.{ℤ, pos, pos_part, leb_ℤ, ltb_ℤ}
use hunter_kinodynamic_rl.Prelude.Result.{Result, ok, value_error, guard, ◌>>◌}
use hunter_kinodynamic_rl.Floats.{Floats, Float}
use hunter_kinodynamic_rl.Replay.Arrays.{RandomState}
use hunter_kinodynamic_rl.Replay.Ring.{Ring, empty}

module _ ⦃M : Floats⦄ where
  open M use {zero_f, nan}

  pub record RiskTransition : Type 0 where
    pub risk_target : Option Float
    pub min_clearance_m : Float
    pub ttc_sec : Float
    pub collision_within_horizon : Bool
    pub stopping_margin_m : Float
    pub steering_saturation : Bool
    pub goal_progress_m : Float
    pub unrecoverable : Bool
    pub safer_alternative_margin : Float
    pub candidate_kappa : List Float
    pub candidate_v_ref : List Float
    pub candidate_horizon : List Float
    pub candidate_risk : List Float
    pub candidate_goal_progress : List Float
    pub actor_candidate_index : ℕ

  -- `RiskTransition()`
  unfoldable pub no_label : RiskTransition
  no_label = record {
    risk_target = none;
    min_clearance_m = nan;
    ttc_sec = nan;
    collision_within_horizon = false;
    stopping_margin_m = nan;
    steering_saturation = false;
    goal_progress_m = nan;
    unrecoverable = false;
    safer_alternative_margin = nan;
    candidate_kappa = [];
    candidate_v_ref = [];
    candidate_horizon = [];
    candidate_risk = [];
    candidate_goal_progress = [];
    actor_candidate_index = 0;
  }

  -- The entries at one index of the arrays that every supported schema has.
  pub record BaseRow : Type 0 where
    pub state : List Float
    pub action : List Float
    pub next_state : List Float
    pub reward : Float
    pub done : Float
    pub risk_target : Float
    pub valid : Float
    pub min_clearance_m : Float
    pub ttc_sec : Float
    pub collision_within_horizon : Float
    pub stopping_margin_m : Float
    pub unrecoverable : Float
    pub safer_alternative_margin : Float
    pub candidate_kappa : List Float
    pub candidate_v_ref : List Float
    pub candidate_horizon : List Float
    pub candidate_risk : List Float
    pub candidate_valid_mask : List Float
    pub actor_candidate_index : Float

  -- The entries of the arrays that schema 4 added.
  pub record AddedRow : Type 0 where
    pub steering_saturation : Float
    pub goal_progress_m : Float
    pub candidate_goal_progress : List Float

  pub record Row : Type 0 where
    pub base : BaseRow
    pub added : AddedRow

  -- What the constructor fills the arrays with.
  unfoldable pub blank : ℕ → ℕ → ℕ → Row
  blank state_dim action_dim max_candidates = record {
    base = record {
      state = replicate state_dim zero_f;
      action = replicate action_dim zero_f;
      next_state = replicate state_dim zero_f;
      reward = zero_f;
      done = zero_f;
      risk_target = nan;
      valid = zero_f;
      min_clearance_m = nan;
      ttc_sec = nan;
      collision_within_horizon = zero_f;
      stopping_margin_m = nan;
      unrecoverable = zero_f;
      safer_alternative_margin = nan;
      candidate_kappa = replicate max_candidates zero_f;
      candidate_v_ref = replicate max_candidates zero_f;
      candidate_horizon = replicate max_candidates zero_f;
      candidate_risk = replicate max_candidates zero_f;
      candidate_valid_mask = replicate max_candidates zero_f;
      actor_candidate_index = zero_f;
    };
    added = record {
      steering_saturation = zero_f;
      goal_progress_m = nan;
      candidate_goal_progress = replicate max_candidates zero_f;
    };
  }

  module _ ⦃R : RandomState⦄ where
    -- `capacity`, `ptr`, `size` and the arrays are the ring's. Only `load` sets `generation`.
    pub record ReplayBuffer : Type 0 where
      pub state_dim : ℕ
      pub action_dim : ℕ
      pub max_candidates : ℕ
      pub ring : Ring Row
      pub rng : R.State
      pub generation : Option String

    unfoldable pub init : ℤ → ℤ → ℤ → ℕ → ℤ → Result ReplayBuffer
    init state_dim action_dim capacity seed max_candidates = do
      guard (not (leb_ℤ state_dim (pos 0) || leb_ℤ action_dim (pos 0))) value_error
      guard (not (leb_ℤ capacity (pos 0))) value_error
      guard (not (ltb_ℤ max_candidates (pos 0))) value_error
      ok (record {
        state_dim = pos_part state_dim;
        action_dim = pos_part action_dim;
        max_candidates = pos_part max_candidates;
        ring =
            empty (pos_part capacity)
              (blank (pos_part state_dim) (pos_part action_dim) (pos_part max_candidates));
        rng = R.seeded seed;
        generation = none;
      })
