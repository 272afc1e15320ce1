-- ===== src/Sync.antt =====
-- Pushing the trunks and the dispatch rules of the tables into LiveKit:
-- services/configuration-api/app/livekit/jobs.py with the manager of sip.py beside it.
mod LiveKit
mod Trunks
mod Sameness
mod Checked
mod RuleChecked
mod Tests
