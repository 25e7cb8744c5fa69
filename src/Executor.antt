-- ===== src/Executor.antt =====
-- The bounded keyed executor (backend/src/lib/boundedKeyedExecutor.ts).
pub mod Defs
pub mod Sound
pub mod Pump
pub mod Invariant
pub mod Steps
pub mod Admission
pub mod Queues
