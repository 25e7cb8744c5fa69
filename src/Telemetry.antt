-- ===== src/Telemetry.antt =====
-- The intake of a telemetry sample (backend/src/services/telemetryPayload.ts and
-- backend/src/services/deviceTelemetryService.ts).
pub mod Payload
pub mod Order
pub mod Fixes
pub mod Intake
pub mod Jump
pub mod Replay
pub mod Delivery
