-- ===== src/Probes.antt =====
-- probes/: what a probe may connect to.
pub mod Security
mod Tests
