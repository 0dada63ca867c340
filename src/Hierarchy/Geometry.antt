-- ===== src/Hierarchy/Geometry.antt =====
-- common/geometry.py, as far as the hierarchy calls it, and the pose of mission/mission_frame.py.
use hunter_kinodynamic_rl.Floats.{Floats, Float}

module _ ⦃M : Floats⦄ where
  open M use {pi, of_ℕ, add, sub, mul, modulo, hypot, atan2}

  pub record PoseXyYaw : Type 0 where
    pub x : Float
    pub y : Float
    pub yaw : Float

  two_pi : Float
  two_pi = mul (of_ℕ 2) pi

  unfoldable pub wrap_to_pi : Float → Float
  unfolding two_pi
  wrap_to_pi angle = sub (modulo (add angle pi) two_pi) pi

  unfoldable pub euclidean_distance : Float → Float → Float → Float → Float
  euclidean_distance x0 y0 x1 y1 = hypot (sub x1 x0) (sub y1 y0)

  unfoldable pub goal_distance_and_heading : PoseXyYaw → Float → Float → Float × Float
  unfolding wrap_to_pi
  goal_distance_and_heading robot goal_x goal_y =
      let dx = sub goal_x robot.x in
      let dy = sub goal_y robot.y in (hypot dx dy, wrap_to_pi (sub (atan2 dy dx) robot.yaw))
