-- ===== src/Tools.antt =====
-- The tools that an agent may call: services/ai-agent-worker/worker/tools/executor.py, and the check of
-- required arguments of services/shared/shared/tools.py.
pub mod Runtime
pub mod Limits
mod Placeholders
mod Filling
mod Tests
