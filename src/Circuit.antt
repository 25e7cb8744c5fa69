-- ===== src/Circuit.antt =====
-- The provider circuit (backend/src/services/rerouteRetry.ts).
pub mod Defs
pub mod Probes
