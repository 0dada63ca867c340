-- ===== src/Memory.antt =====
-- navigation/memory: where the robot has been, as a graph and as a sequence.
pub mod Graph
pub mod Route
pub mod DeadEnd
pub mod Nodes
