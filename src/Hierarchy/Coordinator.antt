-- ===== src/Hierarchy/Coordinator.antt =====
-- navigation/hierarchy/coordinator.py: the state of `HierarchyCoordinator` and its properties.
pub mod Activation
pub mod Ticks
pub mod Forced
pub mod Invariant
pub mod Preserved
pub mod ForcedInvariant
pub mod Reach
pub mod Returns
pub mod Total
pub mod Outcomes
use hunter_kinodynamic_rl.Prelude.{
  ℕ, ◌-◌, Bool, true, false, not, ◌&&◌, ◌||◌, Option, none, some, List, [], ◌∷◌, ◌++◌, length, drop,
}
use hunter_kinodynamic_rl.Prelude.Int.{ℤ, pos, ◌-ℤ◌, leb_ℤ}
use hunter_kinodynamic_rl.Prelude.Result.{Result, ok, ◌>>=◌, ◌>>◌}
use hunter_kinodynamic_rl.Floats.{Floats, Float}
use hunter_kinodynamic_rl.Hierarchy.Geometry.{PoseXyYaw}
use hunter_kinodynamic_rl.Hierarchy.Goal
use hunter_kinodynamic_rl.Hierarchy.Goal.{GoalManager, GoalManagerConfig}
use hunter_kinodynamic_rl.Hierarchy.Subgoal
use hunter_kinodynamic_rl.Hierarchy.Subgoal.{SubgoalManager, SubgoalManagerConfig, SubgoalResult}
use hunter_kinodynamic_rl.Hierarchy.Replanning.{ReplanningConfig}
use hunter_kinodynamic_rl.Hierarchy.Recovery
use hunter_kinodynamic_rl.Hierarchy.Recovery.{FailureRecoveryConfig}

module _ ⦃M : Floats⦄ where
  open M use {zero_f, sub, lt, le, is_finite}

  -- `_confidence_is_healthy`
  unfoldable pub confidence_is_healthy : Option Float → Float → Bool
  confidence_is_healthy none min_confidence = false
  confidence_is_healthy (some value) min_confidence = is_finite value && le min_confidence value

  pub record HierarchyCoordinatorConfig : Type 0 where
    pub goal : GoalManagerConfig
    pub subgoal : SubgoalManagerConfig
    pub replanning : ReplanningConfig
    pub recovery : FailureRecoveryConfig
    pub mission_timeout_steps : Option ℤ
    pub mission_timeout_sec : Option Float

  pub record Coordinator : Type 0 where
    pub config : HierarchyCoordinatorConfig
    pub goal_manager : GoalManager
    pub subgoal_manager : SubgoalManager
    pub queue : List (Float × Float)
    pub retry_count : ℕ
    pub current_candidate : Option (Float × Float)
    pub distance_history : List Float
    pub consecutive_emergency_stops : ℕ
    pub last_pose : Option PoseXyYaw
    pub mission_start_step : ℤ
    pub mission_start_time_sec : Float
    pub mission_failed : Bool
    pub mission_timed_out : Bool
    pub last_subgoal_result : Option SubgoalResult
    pub subgoal_reached : Bool
    pub subgoal_failed : Bool
    pub previous_final_goal_distance : Float
    pub previous_subgoal_distance : Float
    pub last_final_goal_distance : Float
    pub last_subgoal_distance : Float
    pub localization_degraded : Bool

  -- `__init__`, which validates the subgoal and the recovery sections.
  unfoldable pub init : HierarchyCoordinatorConfig → Result Coordinator
  init config = do
    subgoals ← Subgoal.init config.subgoal
    Recovery.validate config.recovery
    ok (record {
      config = config;
      goal_manager = Goal.init config.goal true;
      subgoal_manager = subgoals;
      queue = [];
      retry_count = 0;
      current_candidate = none;
      distance_history = [];
      consecutive_emergency_stops = 0;
      last_pose = none;
      mission_start_step = pos 0;
      mission_start_time_sec = zero_f;
      mission_failed = false;
      mission_timed_out = false;
      last_subgoal_result = none;
      subgoal_reached = false;
      subgoal_failed = false;
      previous_final_goal_distance = zero_f;
      previous_subgoal_distance = zero_f;
      last_final_goal_distance = zero_f;
      last_subgoal_distance = zero_f;
      localization_degraded = false;
    })

  unfoldable pub start_mission : Coordinator → Float × Float → ℤ → Float → Coordinator
  start_mission c (final_goal_x, final_goal_y) now_step now_time_sec = record c {
    goal_manager = (Goal.set_goal c.goal_manager final_goal_x final_goal_y).1;
    subgoal_manager = Subgoal.reset c.subgoal_manager;
    mission_start_step = now_step;
    mission_start_time_sec = now_time_sec;
    mission_failed = false;
    mission_timed_out = false;
    retry_count = 0;
    current_candidate = none;
    queue = [];
    distance_history = [];
    consecutive_emergency_stops = 0;
    last_pose = none;
    last_subgoal_result = none;
    subgoal_reached = false;
    subgoal_failed = false;
    previous_final_goal_distance = zero_f;
    previous_subgoal_distance = zero_f;
    last_final_goal_distance = zero_f;
    last_subgoal_distance = zero_f;
    localization_degraded = false;
  }

  unfoldable pub enqueue_subgoal : Coordinator → Float × Float → Coordinator
  enqueue_subgoal c xy = record c { queue = c.queue ++ xy ∷ [] }

  abbrev pub mission_reached : Coordinator → Bool
  mission_reached c = Goal.is_reached c.goal_manager.status

  abbrev pub mission_done : Coordinator → Bool
  mission_done c = mission_reached c || c.mission_failed || c.mission_timed_out

  abbrev pub stop_required : Coordinator → Bool
  stop_required c = mission_done c || not (Subgoal.active c.subgoal_manager)

  some_if : Bool → Result (Float × Float) → Result (Option (Float × Float))
  some_if false r = ok none
  some_if true r = do xy ← r; ok (some xy)

  unfoldable pub active_subgoal_mission : Coordinator → Result (Option (Float × Float))
  unfolding some_if
  active_subgoal_mission c =
      some_if (Subgoal.active c.subgoal_manager) (Subgoal.subgoal_mission_xy c.subgoal_manager)

  reaches_ℤ : ℤ → Option ℤ → Bool
  reaches_ℤ elapsed none = false
  reaches_ℤ elapsed (some timeout) = leb_ℤ timeout elapsed

  reaches_f : Float → Option Float → Bool
  reaches_f elapsed none = false
  reaches_f elapsed (some timeout) = le timeout elapsed

  unfoldable pub check_mission_timeout : Coordinator → ℤ → Float → Bool
  unfolding reaches_ℤ reaches_f
  check_mission_timeout c now_step now_time_sec =
      reaches_ℤ (now_step -ℤ c.mission_start_step) c.config.mission_timeout_steps
      || reaches_f (sub now_time_sec c.mission_start_time_sec) c.config.mission_timeout_sec

  -- `deque(maxlen=w).append(x)`
  unfoldable pub push_max : ℕ → List Float → Float → List Float
  push_max w xs x = let ys = xs ++ x ∷ [] in drop (length ys - w) ys
