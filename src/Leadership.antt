-- ===== src/Leadership.antt =====
-- Singleton background work under a lease (backend/src/services/workerCoordinator.ts,
-- backend/src/lib/workerFence.ts).
pub mod Defs
pub mod Exclusion
pub mod Reachable
pub mod Exclusive
