-- ===== src/Safety/Guard/Guarded.antt =====
-- What the guard lets through.
use mathlib.Core.Bool.{true≢false}
use hunter_kinodynamic_rl.Prelude.{
  ◌≡◌, refl, sym, subst, ◌∙◌, ◌⊎◌, inl, inr, Bool, true, false, not, ◌&&◌, Option, none, some,
  if-either,
}
use hunter_kinodynamic_rl.Floats.{Floats, Float, max_f, min_f}
use hunter_kinodynamic_rl.Safety.Guard.{
  VehicleCommand, RobotConfig, SafetyLimits, Readings, stop_command, is_finite_command, clamped,
  sanitize_command, check_sensor_freshness, check_odom_freshness, check_command_freshness,
  odom_is_stale, apply_collision_proximity_stop, guard_command,
}
use hunter_kinodynamic_rl.Safety.Guard.Bounded.{
  Comparisons, Limited, IsBounded, stop-IsBounded, clamped-IsBounded,
}

module _ ⦃M : Floats⦄ (C : Comparisons M) where
  open M use {zero_f, sub, lt, le, is_finite}

  -- No obstacle is known inside of the stop distance.
  abbrev pub IsFar : Option Float → SafetyLimits → Type 0
  IsFar none limits = Unit
  IsFar (some distance) limits = lt distance limits.min_obstacle_stop_distance_m ≡ false

  abbrev pub IsFreshOdom : Option Float → Float → SafetyLimits → Type 0
  IsFreshOdom none now limits = Unit
  IsFreshOdom (some last) now limits = le (sub now last) limits.max_odom_age_sec ≡ true

  -- Everything that driving forward depends on.
  pub record IsClear (command : VehicleCommand) (limits : SafetyLimits) (r : Readings)
      : Type 0 where
    pub finite : (is_finite command.speed_mps ≡ true) × (is_finite command.steering_rad ≡ true)
    pub sensor : le (sub r.now_sec r.last_sensor_time_sec) limits.max_sensor_age_sec ≡ true
    pub odom : IsFreshOdom r.last_odom_time_sec r.now_sec limits
    pub fresh : le (sub r.now_sec r.last_command_time_sec) limits.max_command_age_sec ≡ true
    pub far : IsFar r.nearest_obstacle_distance_m limits

  -- The command, clamped.
  abbrev pub IsClamped : VehicleCommand → RobotConfig → VehicleCommand → Type 0
  IsClamped command robot out =
      (out.speed_mps ≡ max_f zero_f (min_f robot.max_forward_speed_mps command.speed_mps))
      × (out.steering_rad
          ≡ max_f (sub zero_f robot.steering_limit_rad)
              (min_f robot.steering_limit_rad command.steering_rad))

  pub record Guarded (command : VehicleCommand) (robot : RobotConfig) (limits : SafetyLimits)
      (r : Readings) (out : VehicleCommand) : Type 0 where
    pub bounded : IsBounded C robot out
    pub moving :
        lt zero_f out.speed_mps ≡ true → IsClear command limits r × IsClamped command robot out

  stop-Guarded :
      (command : VehicleCommand) (robot : RobotConfig) (limits : SafetyLimits) (r : Readings)
      → Limited C robot
      → Guarded command robot limits r stop_command
  stop-Guarded command robot limits r l = record {
    bounded = stop-IsBounded C robot l;
    moving = λ m. absurd (true≢false (sym m ∙ C.zero_not_lt));
  }

  negated : (b : Bool) → not b ≡ false → b ≡ true
  negated true h = refl
  negated false h = cc

  both_parts : (a b : Bool) → (a && b) ≡ true → (a ≡ true) × (b ≡ true)
  both_parts true b h = (refl, h)
  both_parts false b h = cc

  not_stale-IsFreshOdom :
      (last : Option Float) (now : Float) (limits : SafetyLimits)
      → odom_is_stale last now limits ≡ false
      → IsFreshOdom last now limits
  not_stale-IsFreshOdom none now limits h = tt
  not_stale-IsFreshOdom (some last) now limits h = negated (check_odom_freshness last now limits) h

  clear-Guarded :
      (command : VehicleCommand) (robot : RobotConfig) (limits : SafetyLimits) (r : Readings)
      → Limited C robot
      → is_finite_command command ≡ true
      → check_sensor_freshness r.last_sensor_time_sec r.now_sec limits ≡ true
      → odom_is_stale r.last_odom_time_sec r.now_sec limits ≡ false
      → check_command_freshness r.last_command_time_sec r.now_sec limits ≡ true
      → IsFar r.nearest_obstacle_distance_m limits
      → Guarded command robot limits r (clamped command robot)
  clear-Guarded command robot limits r l f s o c d = record {
    bounded = clamped-IsBounded C command robot l;
    moving = λ m. (
      record {
        finite = both_parts (is_finite command.speed_mps) (is_finite command.steering_rad) f;
        sensor = s;
        odom = not_stale-IsFreshOdom r.last_odom_time_sec r.now_sec limits o;
        fresh = c;
        far = d;
      },
      (refl, refl),
    );
  }

  -- The command with its forward speed taken away.
  halted-Guarded :
      (command : VehicleCommand) (robot : RobotConfig) (limits : SafetyLimits) (r : Readings)
      → Limited C robot
      → Guarded command robot limits r (record (clamped command robot) { speed_mps = zero_f })
  halted-Guarded command robot limits r l =
      let (speed, steering) = clamped-IsBounded C command robot l in
      record {
        bounded = ((C.le_refl zero_f C.zero_finite, l.speed), steering);
        moving = λ m. absurd (true≢false (sym m ∙ C.zero_not_lt));
      }

  -- A command that does not go forward need not be clear of anything.
  still-Guarded :
      (command : VehicleCommand) (robot : RobotConfig) (limits : SafetyLimits) (r : Readings)
      → Limited C robot
      → lt zero_f (clamped command robot).speed_mps ≡ false
      → Guarded command robot limits r (clamped command robot)
  still-Guarded command robot limits r l e = record {
    bounded = clamped-IsBounded C command robot l;
    moving = λ m. absurd (true≢false (sym m ∙ e));
  }

  one_is_false : (a b : Bool) → (a && b) ≡ false → (a ≡ false) ⊎ (b ≡ false)
  one_is_false true b h = inr h
  one_is_false false b h = inl refl

  proximity-Guarded :
      (command : VehicleCommand) (robot : RobotConfig) (limits : SafetyLimits) (r : Readings)
      → (near : Option Float) → Limited C robot
      → (IsFar near limits → Guarded command robot limits r (clamped command robot))
      → Guarded command robot limits r
          (apply_collision_proximity_stop (clamped command robot) near limits)
  unfolding apply_collision_proximity_stop
  proximity-Guarded command robot limits r none l g = g tt
  proximity-Guarded command robot limits r (some distance) l g =
      if-either (Guarded command robot limits r)
        (lt distance limits.min_obstacle_stop_distance_m
          && lt zero_f (clamped command robot).speed_mps)
        (λ _. halted-Guarded command robot limits r l)
        (λ h. elim (one_is_false _ _ h) [
          | inl far ↦ g far
          | inr still ↦ still-Guarded command robot limits r l still
        ])

  stopped_near-Guarded :
      (command : VehicleCommand) (robot : RobotConfig) (limits : SafetyLimits) (r : Readings)
      (near : Option Float)
      → Limited C robot
      → Guarded command robot limits r (apply_collision_proximity_stop stop_command near limits)
  unfolding apply_collision_proximity_stop
  stopped_near-Guarded command robot limits r none l = stop-Guarded command robot limits r l
  stopped_near-Guarded command robot limits r (some distance) l =
      if-either (Guarded command robot limits r)
        (lt distance limits.min_obstacle_stop_distance_m && lt zero_f zero_f)
        (λ _. stop-Guarded command robot limits r l) (λ _. stop-Guarded command robot limits r l)

  after_sanitize-Guarded :
      (command : VehicleCommand) (robot : RobotConfig) (limits : SafetyLimits) (r : Readings)
      → Limited C robot
      → check_sensor_freshness r.last_sensor_time_sec r.now_sec limits ≡ true
      → odom_is_stale r.last_odom_time_sec r.now_sec limits ≡ false
      → check_command_freshness r.last_command_time_sec r.now_sec limits ≡ true
      → Guarded command robot limits r (
          apply_collision_proximity_stop
            (sanitize_command command robot)
            r.nearest_obstacle_distance_m
            limits)
  unfolding sanitize_command
  after_sanitize-Guarded command robot limits r l s o c =
      if-either
        (λ safe.
          Guarded command robot limits r
            (apply_collision_proximity_stop safe r.nearest_obstacle_distance_m limits))
        (not (is_finite_command command))
        (λ _. stopped_near-Guarded command robot limits r r.nearest_obstacle_distance_m l)
        (λ f.
          proximity-Guarded command robot limits r r.nearest_obstacle_distance_m l
            (clear-Guarded command robot limits r l (negated (is_finite_command command) f) s o c))

  guarded :
      (command : VehicleCommand) (robot : RobotConfig) (limits : SafetyLimits) (r : Readings)
      → Limited C robot
      → Guarded command robot limits r (guard_command command robot limits r)
  unfolding guard_command
  guarded command robot limits r l =
      if-either (Guarded command robot limits r)
        (not (check_sensor_freshness r.last_sensor_time_sec r.now_sec limits))
        (λ _. stop-Guarded command robot limits r l)
        (λ s.
          if-either (Guarded command robot limits r)
            (odom_is_stale r.last_odom_time_sec r.now_sec limits)
            (λ _. stop-Guarded command robot limits r l)
            (λ o.
              if-either (Guarded command robot limits r)
                (not (check_command_freshness r.last_command_time_sec r.now_sec limits))
                (λ _. stop-Guarded command robot limits r l)
                (λ c.
                  after_sanitize-Guarded command robot limits r l (negated _ s) o (negated _ c))))

  not_stale :
      (last : Option Float) (now : Float) (limits : SafetyLimits)
      → IsFreshOdom last now limits
      → odom_is_stale last now limits ≡ false
  not_stale none now limits h = refl
  not_stale (some last) now limits h = rw h refl

  far_passes :
      (command : VehicleCommand) (near : Option Float) (limits : SafetyLimits)
      → IsFar near limits
      → apply_collision_proximity_stop command near limits ≡ command
  unfolding apply_collision_proximity_stop
  far_passes command none limits h = refl
  far_passes command (some distance) limits h = rw h refl

  clear_passes :
      (command : VehicleCommand) (robot : RobotConfig) (limits : SafetyLimits) (r : Readings)
      → IsClear command limits r
      → guard_command command robot limits r ≡ clamped command robot
  unfolding guard_command sanitize_command
  clear_passes command robot limits r c =
      let (speed, steering) = c.finite in
      let o = not_stale r.last_odom_time_sec r.now_sec limits c.odom in
      rw (c.sensor, o, c.fresh, speed, steering)
        (far_passes (clamped command robot) r.nearest_obstacle_distance_m limits c.far)

  -- From what IEEE 754 says of comparisons, for a robot whose limits are finite and around 0, and any
  -- command, times and obstacle distance, NaN and infinity among them: the speed that the guard
  -- returns is between 0 and the robot's greatest forward speed, and the steering within its limits.
  -- If that speed is greater than 0, then the command is clear: it was finite, the ages of the
  -- sensor's data, of the odometry's (where its time is given) and of the command are within the
  -- limits, and no obstacle is known inside of the stop distance. A command that is clear comes back
  -- clamped.
  pub guard_command-Guarded :
      (command : VehicleCommand) (robot : RobotConfig) (limits : SafetyLimits) (r : Readings)
      → Limited C robot
      → Guarded command robot limits r (guard_command command robot limits r)
        × (IsClear command limits r
            → IsClamped command robot (guard_command command robot limits r))
  guard_command-Guarded command robot limits r l = (
    guarded command robot limits r l,
    λ c. subst (IsClamped command robot) (sym (clear_passes command robot limits r c)) (refl, refl),
  )
