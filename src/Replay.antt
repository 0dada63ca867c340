-- ===== src/Replay.antt =====
-- rl/replay and navigation/global_rl/replay.py: the two replay buffers.
pub mod Arrays
pub mod Ring
pub mod Local
pub mod Global
