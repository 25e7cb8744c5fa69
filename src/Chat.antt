-- ===== src/Chat.antt =====
-- The rate of chat messages (backend/src/services/chatRateLimit.ts).
pub mod Defs
pub mod Recent
pub mod Limits
