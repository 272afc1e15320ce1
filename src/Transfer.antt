-- ===== src/Transfer.antt =====
-- The warm transfer of a call to a human (services/ai-agent-worker/worker/transfer).
pub mod Status
pub mod Destinations
pub mod Fallback
pub mod Dial
pub mod Engine
mod Tests
