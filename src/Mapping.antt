-- ===== src/Mapping.antt =====
-- navigation/mapping: the map of the robot's surroundings.
pub mod Raytracing
