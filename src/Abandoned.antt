-- ===== src/Abandoned.antt =====
-- Which rides are abandoned (backend/src/services/abandonedRideReconciliationLogic.ts).
pub mod Defs
pub mod Decision
