-- ===== src/Flight.antt =====
-- The coalescing of concurrent fills: backend/src/lib/boundedSingleFlight.ts.
pub mod Defs
pub mod Invariant
pub mod Operations
pub mod Bounds
pub mod Ages
