-- ===== src/Motion.antt =====
-- The plausibility of a telemetry sample (backend/src/lib/telemetryMotion.ts).
pub mod Defs
pub mod Reacquisition
