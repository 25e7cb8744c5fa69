-- ===== src/Rides.antt =====
-- The rides of one bus in its two stores (backend/src/services/tripStateEngine.ts,
-- backend/src/services/rideSessionStart.ts, backend/src/routes/shifts.ts).
pub mod History
pub mod Records
pub mod Start
pub mod Engine
pub mod Attach
pub mod Attached
pub mod Completion
pub mod Return
pub mod Consistent
pub mod Owned
pub mod Started
pub mod Kept
pub mod Steps
pub mod Progress
pub mod Live
pub mod Claims
pub mod Claimed
