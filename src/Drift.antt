-- ===== src/Drift.antt =====
-- The detection of drift between the tables and LiveKit of
-- services/configuration-api/app/livekit/drift.py.
pub mod Compare
pub mod Report
pub mod Agreement
pub mod Marks
mod Tests
