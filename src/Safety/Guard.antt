-- ===== src/Safety/Guard.antt =====
-- The guard on the commands to the real robot, env/safety/action_guard.py. Clocks and sensors are the
-- caller's: times and the distance of the nearest obstacle are arguments.
pub mod Bounded
pub mod Guarded
use hunter_kinodynamic_rl.Prelude.{Bool, not, ◌&&◌, false, Option, none, some, if◌then◌else◌}
use hunter_kinodynamic_rl.Floats.{Floats, Float, max_f, min_f}

module _ ⦃M : Floats⦄ where
  open M use {zero_f, sub, lt, le, is_finite}

  pub record VehicleCommand : Type 0 where
    pub speed_mps : Float
    pub steering_rad : Float

  -- What the guard reads of `RobotConfig`.
  pub record RobotConfig : Type 0 where
    pub max_forward_speed_mps : Float
    pub steering_limit_rad : Float

  pub record SafetyLimits : Type 0 where
    pub max_sensor_age_sec : Float
    pub max_command_age_sec : Float
    pub min_obstacle_stop_distance_m : Float
    pub max_odom_age_sec : Float

  abbrev pub stop_command : VehicleCommand
  stop_command = record { speed_mps = zero_f; steering_rad = zero_f }

  abbrev pub is_finite_command : VehicleCommand → Bool
  is_finite_command command = is_finite command.speed_mps && is_finite command.steering_rad

  abbrev pub clamp : Float → Float → Float → Float
  clamp low high x = max_f low (min_f high x)

  abbrev pub clamped : VehicleCommand → RobotConfig → VehicleCommand
  clamped command robot = record {
    speed_mps = clamp zero_f robot.max_forward_speed_mps command.speed_mps;
    steering_rad =
        clamp (sub zero_f robot.steering_limit_rad) robot.steering_limit_rad command.steering_rad;
  }

  unfoldable pub sanitize_command : VehicleCommand → RobotConfig → VehicleCommand
  sanitize_command command robot =
      if not (is_finite_command command) then stop_command else clamped command robot

  abbrev pub check_sensor_freshness : Float → Float → SafetyLimits → Bool
  check_sensor_freshness last now limits = le (sub now last) limits.max_sensor_age_sec

  abbrev pub check_odom_freshness : Float → Float → SafetyLimits → Bool
  check_odom_freshness last now limits = le (sub now last) limits.max_odom_age_sec

  abbrev pub check_command_freshness : Float → Float → SafetyLimits → Bool
  check_command_freshness last now limits = le (sub now last) limits.max_command_age_sec

  -- `last_odom_time_sec is not None and not check_odom_freshness(...)`
  abbrev pub odom_is_stale : Option Float → Float → SafetyLimits → Bool
  odom_is_stale none now limits = false
  odom_is_stale (some last) now limits = not (check_odom_freshness last now limits)

  unfoldable pub apply_collision_proximity_stop :
      VehicleCommand → Option Float → SafetyLimits → VehicleCommand
  apply_collision_proximity_stop command none limits = command
  apply_collision_proximity_stop command (some distance) limits =
      if lt distance limits.min_obstacle_stop_distance_m && lt zero_f command.speed_mps
      then record command { speed_mps = zero_f }
      else command

  -- The arguments of `guard` beside the command and the configuration.
  pub record Readings : Type 0 where
    pub last_sensor_time_sec : Float
    pub last_command_time_sec : Float
    pub now_sec : Float
    pub nearest_obstacle_distance_m : Option Float
    pub last_odom_time_sec : Option Float

  unfoldable pub guard_command :
      VehicleCommand → RobotConfig → SafetyLimits → Readings → VehicleCommand
  guard_command command robot limits r =
      let safe = sanitize_command command robot in
      if not (check_sensor_freshness r.last_sensor_time_sec r.now_sec limits)
      then stop_command
      else if odom_is_stale r.last_odom_time_sec r.now_sec limits
      then stop_command
      else if not (check_command_freshness r.last_command_time_sec r.now_sec limits)
      then stop_command
      else apply_collision_proximity_stop safe r.nearest_obstacle_distance_m limits
