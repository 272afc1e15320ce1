-- ===== src/Loader.antt =====
-- `CallConfigLoader` of services/ai-agent-worker/worker/config_loader.py: whether a call is taken, which
-- agent and version answer it, and with which tools.
pub mod Limits
pub mod Agent
pub mod Concurrency
pub mod Admission
pub mod Tools
pub mod Grants
mod Tests
