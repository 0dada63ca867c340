-- ===== src/Safety.antt =====
-- env/safety: the checks between a policy's output and the motors.
pub mod Guard
