-- ===== src/Hierarchy/Goal.antt =====
-- navigation/mission/goal_manager.py: the mission's one final goal and its status.
use hunter_kinodynamic_rl.Prelude.{Bool, true, false, not, ◌&&◌, Option, none, some, if◌then◌else◌}
use hunter_kinodynamic_rl.Prelude.Result.{Result, ok, err, runtime_error}
use hunter_kinodynamic_rl.Floats.{Floats, Float}
use hunter_kinodynamic_rl.Hierarchy.Geometry.{PoseXyYaw, goal_distance_and_heading}

pub data MissionStatus : Type 0 where
  inactive active reached cancelled : MissionStatus

abbrev pub is_inactive : MissionStatus → Bool
is_inactive MissionStatus.inactive = true
is_inactive _ = false

abbrev pub is_active : MissionStatus → Bool
is_active MissionStatus.active = true
is_active _ = false

abbrev pub is_reached : MissionStatus → Bool
is_reached MissionStatus.reached = true
is_reached _ = false

module _ ⦃M : Floats⦄ where
  open M use {abs, lt}

  pub record GoalManagerConfig : Type 0 where
    pub position_tolerance_m : Float
    pub heading_tolerance_rad : Float
    pub require_low_speed_on_goal : Bool
    pub goal_speed_threshold_mps : Float

  pub record GoalManager : Type 0 where
    pub config : GoalManagerConfig
    pub reset_memory_on_goal_change : Bool
    pub relative_goal : Option (Float × Float)
    pub mission_goal : Option (Float × Float)
    pub status : MissionStatus

  unfoldable pub init : GoalManagerConfig → Bool → GoalManager
  init config reset_memory = record {
    config = config;
    reset_memory_on_goal_change = reset_memory;
    relative_goal = none;
    mission_goal = none;
    status = MissionStatus.inactive;
  }

  -- The result tells the caller whether to reset map and memory.
  unfoldable pub set_goal : GoalManager → Float → Float → Bool × GoalManager
  set_goal g gx gy =
      let is_change = not (is_inactive g.status) in
      (
        is_change && g.reset_memory_on_goal_change,
        record g {
          relative_goal = some (gx, gy);
          mission_goal = some (gx, gy);
          status = MissionStatus.active;
        },
      )

  unfoldable pub cancel : GoalManager → GoalManager
  cancel g = record g { status = MissionStatus.cancelled }

  distance_from : PoseXyYaw → Option (Float × Float) → Result (Float × Float)
  distance_from pose none = err runtime_error
  distance_from pose (some (gx, gy)) = ok (goal_distance_and_heading pose gx gy)

  -- It raises before the first `set_goal`.
  unfoldable pub distance_and_bearing : GoalManager → PoseXyYaw → Result (Float × Float)
  unfolding distance_from
  distance_and_bearing g pose = distance_from pose g.mission_goal

  is_slow : GoalManagerConfig → Option Float → Bool
  is_slow config none = false
  is_slow config (some speed) = not (lt config.goal_speed_threshold_mps (abs speed))

  at_goal : GoalManagerConfig → Float × Float → Option Float → Bool
  unfolding is_slow
  at_goal config (dist, bearing) speed =
      if lt config.position_tolerance_m dist
      then false
      else if lt config.heading_tolerance_rad (abs bearing)
      then false
      else if config.require_low_speed_on_goal
      then is_slow config speed
      else true

  confirm : GoalManager → Option Float → Result (Float × Float) → Result Bool × GoalManager
  confirm g speed (err e) = (err e, g)
  confirm g speed (ok d) =
      if at_goal g.config d speed
      then (ok true, record g { status = MissionStatus.reached })
      else (ok false, g)

  unfoldable pub check_reached : GoalManager → PoseXyYaw → Option Float → Result Bool × GoalManager
  unfolding confirm at_goal distance_and_bearing
  check_reached g pose speed =
      if is_active g.status then confirm g speed (distance_and_bearing g pose) else (ok false, g)
