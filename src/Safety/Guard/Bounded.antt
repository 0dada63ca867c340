-- ===== src/Safety/Guard/Bounded.antt =====
-- The guard's bounds.
use hunter_kinodynamic_rl.Prelude.{◌≡◌, true, false, if-either}
use hunter_kinodynamic_rl.Floats.{Floats, Float, min_f}
use hunter_kinodynamic_rl.Safety.Guard.{VehicleCommand, RobotConfig, stop_command, clamp, clamped}

-- What IEEE 754 says of comparisons: a smaller number is at most the other, a number that is finite is
-- at most itself, and 0 is not less than itself.
pub record Comparisons (M : Floats) : Type 0 where
  pub lt-le : (a b : M.Carrier) → M.lt a b ≡ true → M.le a b ≡ true
  pub le_refl : (a : M.Carrier) → M.is_finite a ≡ true → M.le a a ≡ true
  pub zero_finite : M.is_finite M.zero_f ≡ true
  pub zero_not_lt : M.lt M.zero_f M.zero_f ≡ false

module _ ⦃M : Floats⦄ (C : Comparisons M) where
  open M use {zero_f, sub, lt, le, is_finite}

  abbrev pub Within : Float → Float → Float → Type 0
  Within low high x = (le low x ≡ true) × (le x high ≡ true)

  -- A robot whose limits are finite and around 0.
  pub record Limited (robot : RobotConfig) : Type 0 where
    pub speed_finite : is_finite robot.max_forward_speed_mps ≡ true
    pub speed : le zero_f robot.max_forward_speed_mps ≡ true
    pub left_finite : is_finite robot.steering_limit_rad ≡ true
    pub right_finite : is_finite (sub zero_f robot.steering_limit_rad) ≡ true
    pub left : le zero_f robot.steering_limit_rad ≡ true
    pub right : le (sub zero_f robot.steering_limit_rad) zero_f ≡ true
    pub both : le (sub zero_f robot.steering_limit_rad) robot.steering_limit_rad ≡ true

  min_f-le : (a b : Float) → is_finite a ≡ true → le (min_f a b) a ≡ true
  min_f-le a b f = if-either (λ x. le x a ≡ true) (lt b a) (C.lt-le b a) (λ _. C.le_refl a f)

  clamp-Within :
      (low high x : Float)
      → is_finite low ≡ true
      → is_finite high ≡ true
      → le low high ≡ true
      → Within low high (clamp low high x)
  clamp-Within low high x f g h =
      if-either (Within low high) (lt low (min_f high x))
        (λ e. (C.lt-le low (min_f high x) e, min_f-le high x g)) (λ _. (C.le_refl low f, h))

  abbrev pub IsBounded : RobotConfig → VehicleCommand → Type 0
  IsBounded robot command =
      Within zero_f robot.max_forward_speed_mps command.speed_mps
      × Within (sub zero_f robot.steering_limit_rad) robot.steering_limit_rad command.steering_rad

  pub stop-IsBounded : (robot : RobotConfig) → Limited robot → IsBounded robot stop_command
  stop-IsBounded robot l = ((C.le_refl zero_f C.zero_finite, l.speed), (l.right, l.left))

  pub clamped-IsBounded :
      (command : VehicleCommand) (robot : RobotConfig)
      → Limited robot
      → IsBounded robot (clamped command robot)
  clamped-IsBounded command robot l = (
    clamp-Within zero_f robot.max_forward_speed_mps command.speed_mps C.zero_finite l.speed_finite
        l.speed,
    clamp-Within (sub zero_f robot.steering_limit_rad) robot.steering_limit_rad command.steering_rad
        l.right_finite l.left_finite l.both,
  )
