-- ===== src/Spawning.antt =====
-- env/spawning: what is put into the simulated world.
pub mod Pool
