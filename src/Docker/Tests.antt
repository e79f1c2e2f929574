-- ===== src/Docker/Tests.antt =====
-- Concrete runs of docker/runtime.py on the world of `Tests.World`, where the hypotheses of the
-- theorems hold.
pub mod World
pub mod Runs
pub mod Parts
pub mod Health
