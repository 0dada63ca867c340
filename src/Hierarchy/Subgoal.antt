-- ===== src/Hierarchy/Subgoal.antt =====
-- navigation/hierarchy/subgoal_manager.py: the one active subgoal and what is accumulated over it.
pub mod Status
use hunter_kinodynamic_rl.Prelude.{
  ℕ, suc, ◌+◌, String, Bool, true, false, not, ◌&&◌, Option, none, some, List, [], ◌∷◌, ◌++◌,
  length, if◌then◌else◌,
}
use mathlib.Core.List.{foldl}
use hunter_kinodynamic_rl.Prelude.Int.{ℤ, pos, ◌+ℤ◌}
use hunter_kinodynamic_rl.Prelude.Result.{
  Result, ok, err, runtime_error, value_error, guard, ◌>>◌, ◌>>=◌,
}
use hunter_kinodynamic_rl.Floats.{Floats, Float, max_f, min_f}
use hunter_kinodynamic_rl.Hierarchy.Geometry.{PoseXyYaw, goal_distance_and_heading}
use Status.{SubgoalStatus, is_terminal, is_active}

module _ ⦃M : Floats⦄ where
  open M use {zero_f, pi, of_ℕ, add, sub, div, abs, lt, le, is_finite}

  pub record SubgoalManagerConfig : Type 0 where
    pub position_tolerance_m : Float
    pub heading_tolerance_rad : Float
    pub require_low_speed_on_reach : Bool
    pub goal_speed_threshold_mps : Float

  unfoldable pub validate : SubgoalManagerConfig → Result (Unit {0})
  validate config =
      guard (not (le config.position_tolerance_m zero_f)) value_error
      >> guard (le zero_f config.heading_tolerance_rad && le config.heading_tolerance_rad pi)
          value_error
      >> guard (not (lt config.goal_speed_threshold_mps zero_f)) value_error

  pub record SubgoalResult : Type 0 where
    pub subgoal_id : ℕ
    pub status : SubgoalStatus
    pub reason : String
    pub local_steps : ℕ
    pub elapsed_time_sec : Float
    pub path_length_m : Float
    pub start_final_goal_distance_m : Float
    pub end_final_goal_distance_m : Float
    pub start_subgoal_distance_m : Float
    pub end_subgoal_distance_m : Float
    pub minimum_clearance_m : Option Float
    pub mean_predicted_risk : Option Float
    pub max_predicted_risk : Option Float
    pub emergency_stop_count : ℕ
    pub steering_saturation_count : ℕ
    pub newly_explored_cells : ℤ

  -- What `_reset_accumulators` sets.
  pub record Accumulators : Type 0 where
    pub start_step : ℤ
    pub start_time_sec : Float
    pub start_final_goal_distance_m : Float
    pub start_subgoal_distance_m : Float
    pub last_final_goal_distance_m : Float
    pub last_subgoal_distance_m : Float
    pub path_length_m : Float
    pub local_steps : ℕ
    pub min_clearance : Option Float
    pub risk_samples : List Float
    pub emergency_stop_count : ℕ
    pub steering_saturation_count : ℕ
    pub newly_explored_cells : ℤ

  unfoldable pub cleared : Accumulators
  cleared = record {
    start_step = pos 0;
    start_time_sec = zero_f;
    start_final_goal_distance_m = zero_f;
    start_subgoal_distance_m = zero_f;
    last_final_goal_distance_m = zero_f;
    last_subgoal_distance_m = zero_f;
    path_length_m = zero_f;
    local_steps = 0;
    min_clearance = none;
    risk_samples = [];
    emergency_stop_count = 0;
    steering_saturation_count = 0;
    newly_explored_cells = pos 0;
  }

  pub record SubgoalManager : Type 0 where
    pub config : SubgoalManagerConfig
    pub next_id : ℕ
    pub subgoal_xy : Option (Float × Float)
    pub status : Option SubgoalStatus
    pub stats : Accumulators

  unfoldable pub init : SubgoalManagerConfig → Result SubgoalManager
  init config =
      validate config
      >> ok (record {
        config = config;
        next_id = 0;
        subgoal_xy = none;
        status = none;
        stats = cleared;
      })

  unfoldable pub reset : SubgoalManager → SubgoalManager
  reset m = record m { subgoal_xy = none; status = none; stats = cleared }

  is_active_status : Option SubgoalStatus → Bool
  is_active_status none = false
  is_active_status (some s) = is_active s

  -- The property `active`.
  unfoldable pub active : SubgoalManager → Bool
  unfolding is_active_status
  active m = is_active_status m.status

  or_runtime_error : Option (Float × Float) → Result (Float × Float)
  or_runtime_error none = err runtime_error
  or_runtime_error (some xy) = ok xy

  unfoldable pub subgoal_mission_xy : SubgoalManager → Result (Float × Float)
  unfolding or_runtime_error
  subgoal_mission_xy m = or_runtime_error m.subgoal_xy

  started : ℤ → Float → Float → Float → Accumulators
  unfolding cleared
  started now_step now_time_sec final_goal_distance_m subgoal_distance_m = record cleared {
    start_step = now_step;
    start_time_sec = now_time_sec;
    start_final_goal_distance_m = final_goal_distance_m;
    start_subgoal_distance_m = subgoal_distance_m;
    last_final_goal_distance_m = final_goal_distance_m;
    last_subgoal_distance_m = subgoal_distance_m;
  }

  unfoldable pub activate :
      SubgoalManager → Float × Float → ℤ → Float → Float → Float → Result ℕ × SubgoalManager
  unfolding active started
  activate m xy now_step now_time_sec final_goal_distance_m subgoal_distance_m =
      if active m then (err runtime_error, m) else (
        ok (m.next_id + 1),
        record m {
          next_id = m.next_id + 1;
          subgoal_xy = some xy;
          status = some SubgoalStatus.active;
          stats = started now_step now_time_sec final_goal_distance_m subgoal_distance_m;
        },
      )

  unfoldable pub distance_to_subgoal : SubgoalManager → PoseXyYaw → Result (Float × Float)
  unfolding subgoal_mission_xy
  distance_to_subgoal m pose = do
    (gx, gy) ← subgoal_mission_xy m
    ok (goal_distance_and_heading pose gx gy)

  is_slow : SubgoalManagerConfig → Option Float → Bool
  is_slow config none = false
  is_slow config (some speed) =
      is_finite speed && not (lt config.goal_speed_threshold_mps (abs speed))

  at_subgoal : SubgoalManagerConfig → Option Float → Float × Float → Bool
  unfolding is_slow
  at_subgoal config speed (dist, bearing) =
      if lt config.position_tolerance_m dist
      then false
      else if lt config.heading_tolerance_rad (abs bearing)
      then false
      else if config.require_low_speed_on_reach
      then is_slow config speed
      else true

  unfoldable pub check_reached : SubgoalManager → PoseXyYaw → Option Float → Result Bool
  unfolding at_subgoal active distance_to_subgoal
  check_reached m pose speed =
      if active m
      then (do d ← distance_to_subgoal m pose; ok (at_subgoal m.config speed d))
      else ok false

  -- The arguments of `record_tick`.
  pub record Tick : Type 0 where
    pub step_delta_m : Float
    pub final_goal_distance_m : Float
    pub subgoal_distance_m : Float
    pub clearance_m : Option Float
    pub predicted_risk : Option Float
    pub emergency_stop : Bool
    pub steering_saturated : Bool
    pub newly_explored_cells : ℤ

  lower_clearance : Option Float → Option Float → Option Float
  lower_clearance seen none = seen
  lower_clearance none (some c) = some c
  lower_clearance (some m) (some c) = some (min_f m c)

  add_sample : List Float → Option Float → List Float
  add_sample samples none = samples
  add_sample samples (some risk) = samples ++ risk ∷ []

  count_if : Bool → ℕ → ℕ
  count_if b n = if b then n + 1 else n

  ticked : Accumulators → Tick → Accumulators
  unfolding lower_clearance add_sample count_if
  ticked a t = record a {
    local_steps = a.local_steps + 1;
    path_length_m = add a.path_length_m (max_f zero_f t.step_delta_m);
    last_final_goal_distance_m = t.final_goal_distance_m;
    last_subgoal_distance_m = t.subgoal_distance_m;
    min_clearance = lower_clearance a.min_clearance t.clearance_m;
    risk_samples = add_sample a.risk_samples t.predicted_risk;
    emergency_stop_count = count_if t.emergency_stop a.emergency_stop_count;
    steering_saturation_count = count_if t.steering_saturated a.steering_saturation_count;
    newly_explored_cells = a.newly_explored_cells +ℤ t.newly_explored_cells;
  }

  unfoldable pub record_tick : SubgoalManager → Tick → Result (Unit {0}) × SubgoalManager
  unfolding active ticked
  record_tick m t =
      if active m then (ok tt, record m { stats = ticked m.stats t }) else (err runtime_error, m)

  mean : List Float → Option Float
  mean [] = none
  mean (x ∷ xs) = some (div (foldl add zero_f (x ∷ xs)) (of_ℕ (length (x ∷ xs))))

  maximum : List Float → Option Float
  maximum [] = none
  maximum (x ∷ xs) = some (foldl max_f x xs)

  unfoldable pub result_of : SubgoalManager → SubgoalStatus → String → Float → SubgoalResult
  unfolding mean maximum
  result_of m status reason now_time_sec = record {
    subgoal_id = m.next_id;
    status = status;
    reason = reason;
    local_steps = a.local_steps;
    elapsed_time_sec = max_f zero_f (sub now_time_sec a.start_time_sec);
    path_length_m = a.path_length_m;
    start_final_goal_distance_m = a.start_final_goal_distance_m;
    end_final_goal_distance_m = a.last_final_goal_distance_m;
    start_subgoal_distance_m = a.start_subgoal_distance_m;
    end_subgoal_distance_m = a.last_subgoal_distance_m;
    minimum_clearance_m = a.min_clearance;
    mean_predicted_risk = mean a.risk_samples;
    max_predicted_risk = maximum a.risk_samples;
    emergency_stop_count = a.emergency_stop_count;
    steering_saturation_count = a.steering_saturation_count;
    newly_explored_cells = a.newly_explored_cells;
  }
    where
      a : Accumulators
      a = m.stats

  unfoldable pub finish :
      SubgoalManager → SubgoalStatus → String → Float → Result SubgoalResult × SubgoalManager
  unfolding active result_of
  finish m status reason now_time_sec =
      if active m
      then (if is_terminal status
          then (ok (result_of m status reason now_time_sec), record m { status = some status })
          else (err value_error, m))
      else (err runtime_error, m)
