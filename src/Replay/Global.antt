-- ===== src/Replay/Global.antt =====
-- navigation/global_rl/replay.py and replay_schema.py: the replay buffer of whole options.
pub mod Add
pub mod Sample
pub mod Archive
pub mod Latest
pub mod RoundTrip
use hunter_kinodynamic_rl.Prelude.{
  ℕ, Bool, not, Option, none, some, List, [], ◌∷◌, String, if◌then◌else◌,
}
use hunter_kinodynamic_rl.Prelude.Int.{ℤ, pos, negsuc, pos_part, leb_ℤ}
use hunter_kinodynamic_rl.Prelude.Result.{Result, ok, value_error, guard, ◌>>◌}
use hunter_kinodynamic_rl.Floats.{Floats, Float}
use hunter_kinodynamic_rl.Hierarchy.Subgoal.Status.{SubgoalStatus}
use hunter_kinodynamic_rl.Replay.Arrays.{RandomState}
use hunter_kinodynamic_rl.Replay.Ring.{Ring, empty}

-- numpy's arrays of several dimensions: `fit` is what an assignment to a slot of the given shape
-- writes there, or its error, and `each` maps the entries. `fit_int` is what an assignment of an
-- integer to an entry of a column of signed integers with the given number of bits writes there, or
-- its error.
pub record Tensors ⦃M : Floats⦄ : Type 1 where
  pub Array : Type 0
  pub zeros : List ℕ → Array
  pub fit : List ℕ → Array → Result Array
  pub fit_int : ℕ → ℤ → Result ℤ
  pub each : (Float → Float) → Array → Array
  pub round : Float → Float

-- The numbers that the constructor takes for the shapes of its arrays.
pub record Dims : Type 0 where
  pub map_shape : List ℕ
  pub n_scalars : ℕ
  pub n_candidates : ℕ
  pub n_candidate_features : ℕ
  pub node_rows : ℕ
  pub node_features : ℕ

pub record Columns : Type 0 where
  pub map_channel_names : List String
  pub scalar_names : List String
  pub candidate_feature_names : List String

-- `FAILURE_REASON_CODES`
abbrev pub status_code : SubgoalStatus → ℕ
status_code SubgoalStatus.created = 0
status_code SubgoalStatus.active = 1
status_code SubgoalStatus.reached = 2
status_code SubgoalStatus.failed_blocked = 3
status_code SubgoalStatus.failed_timeout = 4
status_code SubgoalStatus.failed_no_progress = 5
status_code SubgoalStatus.failed_high_risk = 6
status_code SubgoalStatus.cancelled_by_replan = 7

abbrev pub encode_failure_reason : Option SubgoalStatus → ℤ
encode_failure_reason none = negsuc 0
encode_failure_reason (some status) = pos (status_code status)

module _ ⦃M : Floats⦄ ⦃T : Tensors⦄ where
  -- The arrays of one `GlobalObservation`.
  pub record Observation : Type 0 where
    pub map_tensor : T.Array
    pub scalar_tensor : T.Array
    pub candidate_tensor : T.Array
    pub action_mask : T.Array
    pub node_tensor : T.Array
    pub node_validity_mask : T.Array

  -- The entries at one index of the buffer's arrays; those whose names begin with `next_` are `next`.
  pub record GlobalRow : Type 0 where
    pub now : Observation
    pub next : Observation
    pub action : ℤ
    pub option_reward : Float
    pub mission_done : Float
    pub subgoal_success : Float
    pub failure_reason_code : ℤ
    pub local_steps : ℤ
    pub exploration_gain : Float
    pub risk_integral : Float

  abbrev pub blank_observation : Dims → Observation
  blank_observation d = record {
    map_tensor = T.zeros d.map_shape;
    scalar_tensor = T.zeros (d.n_scalars ∷ []);
    candidate_tensor = T.zeros (d.n_candidates ∷ d.n_candidate_features ∷ []);
    action_mask = T.zeros (d.n_candidates ∷ []);
    node_tensor = T.zeros (d.node_rows ∷ d.node_features ∷ []);
    node_validity_mask = T.zeros (d.node_rows ∷ []);
  }

  -- What the constructor fills the arrays with.
  unfoldable pub blank_row : Dims → GlobalRow
  blank_row d = record {
    now = blank_observation d;
    next = blank_observation d;
    action = pos 0;
    option_reward = M.zero_f;
    mission_done = M.zero_f;
    subgoal_success = M.zero_f;
    failure_reason_code = negsuc 0;
    local_steps = pos 0;
    exploration_gain = M.zero_f;
    risk_integral = M.zero_f;
  }

  module _ ⦃R : RandomState⦄ where
    -- `capacity`, `ptr`, `size` and the arrays are the ring's.
    pub record GlobalReplayBuffer : Type 0 where
      pub dims : Dims
      pub columns : Columns
      pub ring : Ring GlobalRow
      pub rng : R.State
      pub generation : String

    unfoldable pub global_init : Dims → Columns → ℤ → ℕ → Result GlobalReplayBuffer
    global_init dims columns capacity seed = do
      guard (not (leb_ℤ capacity (pos 0))) value_error
      ok (record {
        dims = dims;
        columns = columns;
        ring = empty (pos_part capacity) (blank_row dims);
        rng = R.seeded seed;
        generation = "";
      })
