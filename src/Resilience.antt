-- ===== src/Resilience.antt =====
-- The defences against unreliable providers of services/ai-agent-worker/worker/resilience/__init__.py.
pub mod Breaker
pub mod States
pub mod Registry
mod Tests
