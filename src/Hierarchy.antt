-- ===== src/Hierarchy.antt =====
-- The two-timescale navigation core: navigation/mission/goal_manager.py and
-- navigation/hierarchy/*.py.
pub mod Geometry
pub mod Goal
pub mod Subgoal
pub mod Replanning
pub mod Recovery
pub mod Coordinator
