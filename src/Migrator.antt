-- ===== src/Migrator.antt =====
-- autopilot/migrator: the plan of one migration
-- (worker.go, `migrate` up to the transfers).
pub mod Plan
