-- ===== src/Trip.antt =====
-- The trip lifecycle decision (backend/src/services/tripStateReducer.ts).
pub mod Types
pub mod Evidence
pub mod Passing
pub mod Frame
pub mod Recovery
pub mod Arrival
pub mod Reducer
pub mod Progress
pub mod Order
pub mod Completion
pub mod Credits
pub mod Departure
pub mod Visit
