-- ===== src/ReadCache.antt =====
-- The cache of successful reads: backend/src/services/apiReadCache.ts.
pub mod Defs
pub mod Entries
pub mod Steps
pub mod Fresh
pub mod Kept
pub mod Since
