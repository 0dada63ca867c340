-- ===== src/Tests.antt =====
-- Sample data and the theorems at concrete inputs.
mod Numbers
mod Hierarchy
mod Replay
mod Memory
mod Sequence
mod Seeds
mod Worker
mod Checkpoint
mod Mapping
mod Spawning
mod GlobalReplay
mod Safety
