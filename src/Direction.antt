-- ===== src/Direction.antt =====
-- The direction of a ride (backend/src/lib/rideDirection.ts, backend/src/lib/automaticRideDirection.ts,
-- backend/src/services/departureDirection.ts).
pub mod Endpoint
pub mod Symmetry
pub mod Departure
pub mod Mirror
