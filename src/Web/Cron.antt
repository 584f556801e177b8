-- ===== src/Web/Cron.antt =====
-- apps/web/src/server/cron: the house's passes.
pub mod LpPoints
pub mod Tick
pub mod VrfPasses
