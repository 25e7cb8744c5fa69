-- ===== src/Matching.antt =====
-- Matching a fix against the geometry of a route (backend/src/services/routeMatching.ts), and the
-- direction of a departure (backend/src/services/departureDirection.ts).
pub mod Segments
pub mod Bisection
pub mod Search
pub mod Best
pub mod Missing
pub mod Adherence
