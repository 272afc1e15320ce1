-- ===== src/Routing.antt =====
-- The call-time routing of services/ai-agent-worker/worker/routing.py: which agent answers.
pub mod Hours
pub mod Resolve
pub mod Choice
pub mod Outcomes
pub mod Zones
mod Tests
