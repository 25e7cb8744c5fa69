-- ===== src/Tests.antt =====
-- Runs at concrete inputs, and the theorems applied there.
pub mod Grid
mod Trip
mod Executor
mod Leadership
mod RateLimit
mod Lru
mod Matching
mod Direction
mod Motion
mod Circuit
mod Polyline
mod Telemetry
mod Chat
mod Abandoned
mod Outage
mod Rides
mod Flight
mod ReadCache
mod Live
