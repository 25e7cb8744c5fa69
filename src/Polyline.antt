-- ===== src/Polyline.antt =====
-- Encoded polylines (backend/src/lib/polylineUtils.ts).
pub mod Defs
pub mod Value
pub mod RoundTrip
