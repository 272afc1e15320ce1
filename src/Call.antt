-- ===== src/Call.antt =====
-- The life of one call: the state machine of services/shared/shared/models/enums.py and the
-- tracker of services/ai-agent-worker/worker/call_state.py.
pub mod State
pub mod Tracker
mod Tests
