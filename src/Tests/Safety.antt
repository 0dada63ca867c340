-- ===== src/Tests/Safety.antt =====
-- The guard at sample commands.
use hunter_kinodynamic_rl.Prelude.{◌≡◌, refl, true, Option, some, arith}
use hunter_kinodynamic_rl.Prelude.Int.{ℤ, pos, negsuc, ltb_ℤ, leb_ℤ}
use hunter_kinodynamic_rl.Floats.{Floats}
use hunter_kinodynamic_rl.Tests.Numbers.{numbers}
use hunter_kinodynamic_rl.Safety.Guard.{
  VehicleCommand, RobotConfig, SafetyLimits, Readings, guard_command, sanitize_command,
  apply_collision_proximity_stop,
}
use hunter_kinodynamic_rl.Safety.Guard.Bounded.{Comparisons, Limited}
use hunter_kinodynamic_rl.Safety.Guard.Guarded.{Guarded, IsClear, IsClamped, guard_command-Guarded}

instance abbrev sample_numbers : Floats
sample_numbers = numbers

integers_lt-le : (a b : ℤ) → ltb_ℤ a b ≡ true → leb_ℤ a b ≡ true
integers_lt-le a b h = ground arith

integers_le_refl : (a : ℤ) → leb_ℤ a a ≡ true
integers_le_refl a = ground arith

integers-Comparisons : Comparisons numbers
integers-Comparisons = record {
  lt-le = integers_lt-le;
  le_refl = λ a f. integers_le_refl a;
  zero_finite = refl;
  zero_not_lt = refl;
}

abbrev robot : RobotConfig
robot = record { max_forward_speed_mps = pos 3; steering_limit_rad = pos 1 }

robot-Limited : Limited integers-Comparisons robot
robot-Limited = record {
  speed_finite = refl;
  speed = refl;
  left_finite = refl;
  right_finite = refl;
  left = refl;
  right = refl;
  both = refl;
}

abbrev limits : SafetyLimits
limits = record {
  max_sensor_age_sec = pos 5;
  max_command_age_sec = pos 5;
  min_obstacle_stop_distance_m = pos 2;
  max_odom_age_sec = pos 5;
}

abbrev readings : Option ℤ → Readings
readings near = record {
  last_sensor_time_sec = pos 10;
  last_command_time_sec = pos 10;
  now_sec = pos 12;
  nearest_obstacle_distance_m = near;
  last_odom_time_sec = some (pos 9);
}

abbrev fast : VehicleCommand
fast = record { speed_mps = pos 9; steering_rad = negsuc 4 }

-- Clamped, and halted before an obstacle.
drives :
    guard_command fast robot limits (readings (some (pos 2)))
    ≡ record { speed_mps = pos 3; steering_rad = negsuc 0 }
unfolding guard_command sanitize_command apply_collision_proximity_stop
drives = refl

halts :
    guard_command fast robot limits (readings (some (pos 1)))
    ≡ record { speed_mps = pos 0; steering_rad = negsuc 0 }
unfolding guard_command sanitize_command apply_collision_proximity_stop
halts = refl

guard_command-Guarded_example :
    Guarded integers-Comparisons fast robot limits
      (readings (some (pos 2)))
      (guard_command fast robot limits (readings (some (pos 2))))
    × (IsClear integers-Comparisons fast limits (readings (some (pos 2)))
        → IsClamped integers-Comparisons fast robot
            (guard_command fast robot limits (readings (some (pos 2)))))
guard_command-Guarded_example =
    guard_command-Guarded integers-Comparisons fast robot limits (readings (some (pos 2)))
      robot-Limited
