-- ===== src/Transfer/Engine.antt =====
-- `WarmTransfer` of services/ai-agent-worker/worker/transfer/engine.py. `World` has the states and
-- the monad in which the methods run, `Steps` the methods that each act once, and `Run` the
-- orchestration, `_run` with its handler.
pub mod World
pub mod Steps
pub mod Run
pub mod Frame
pub mod Answered
pub mod Rounds
pub mod Dials
pub mod Silence
