-- ===== src/Lib.antt =====
-- The voice agent platform: an inbound SIP call reaches a worker, which loads the tenant's
-- configuration, talks to the caller with a language model and may hand the call to a human.
--
-- Parts, with the files that model them (paths from the repository's root):
-- - services/ai-agent-worker/worker/call_state.py and the call states of
--   services/shared/shared/models/enums.py: Call/State has the states and their transitions,
--   Call/Tracker the tracker's state (its state, the `calls` row and the `call_events` rows) with
--   `transition` and `record_event`; each write may fail, and then nothing is changed.
-- - services/ai-agent-worker/worker/transfer: Transfer/Status (status.py), Transfer/Destinations
--   (destinations.py), Transfer/Fallback (fallback.py), Transfer/Dial (dial.py) and Transfer/Engine
--   (engine.py, with isolation.py beside it). The engine's methods are computations over a `World`, which holds the attributes of
--   the object, the row, the tracker and a log of what was done. Each await takes a turn of a feed,
--   which says what other tasks do then (the caller or the human leaves, a digit comes), how long it
--   takes and whether it raises; a callback that itself awaits acts at once. The legs are taken to be
--   subscribed to each other once the human answers, until a request sets them apart. The dialling loop has
--   fuel of two rounds, which is proved enough.
-- - services/ai-agent-worker/worker/routing.py: Routing/Hours has the business hours and
--   Routing/Resolve the choice of the rule. Prelude/Sorting is the stable `sorted` that it uses.
-- - services/ai-agent-worker/worker/config_loader.py: Loader/Limits has the limits of a tenant and
--   Loader/Agent the way from the dialled number to the agent's version; there the queries of a load
--   read the same rows, and Loader/Concurrency has calls that are loaded at the same time. It calls the routing, and
--   freezes the fallback that the transfer uses. Loader/Tools has the tools that the version grants.
-- - services/ai-agent-worker/worker/tools/executor.py and services/shared/shared/tools.py:
--   Tools/Runtime has `invoke` and its checks, Tools/Placeholders the templates and the schema check.
-- - services/ai-agent-worker/worker/resilience/__init__.py: Resilience/Breaker has the circuit
--   breaker, its registry and its transport.
-- - services/configuration-api/app/livekit/drift.py, with two methods of sip.py beside it:
--   Drift/Compare finds where the tables and LiveKit differ, and Drift/Report marks the rows and sets
--   the gauges.
-- - services/configuration-api/app/livekit/jobs.py and sip.py: Sync/LiveKit has what the manager sends
--   and gets, over a SIP service that is an argument, and Sync/Trunks the two synchronisations with
--   what a check compares a trunk or a rule with.
-- - services/configuration-api/app/api/v1/agents.py, with app/db/models/agent.py and
--   app/schemas/agent.py: Agents/Catalog has the rows that a version refers to and its
--   configuration, Agents/Validation `_validate_version` and `_validate_references`,
--   Agents/Versions the rows of an agent with their queries, Agents/Saving the drafts,
--   Agents/Publishing publishing and rolling back, and Agents/Directory the agents of a tenant. A
--   handler returns the rows that it commits, with its error if it raises one. The handlers
--   are the steps of the relations of Agents/Lifecycle and Agents/Requests; new rows get identifiers
--   that no row has, which the database provides.
-- - services/configuration-api/app/core/security.py, core/dependencies.py, services/auth_service.py,
--   db/models/auth.py and db/repository.py: Auth/Tokens has the principal and its tokens,
--   Auth/Accounts the users with signing in, refreshing and revoking, Auth/Requests whom a request
--   acts for, and Auth/Repository the rows of a tenant. The signing of PyJWT is an argument with two
--   laws: a token holds what was encoded until it expires, and shows when it was issued.
--
-- Identifiers are numbers, texts are lists of code points, times are numbers in the unit that each
-- file names, SQL queries are functions on lists of rows, and logging is left out. The clock, the
-- zone database, the collation of the database, the LiveKit API, JSON values and what a tool does
-- are arguments.
--
-- Not modelled: the providers, the audio pipeline, knowledge retrieval, the configuration API beside
-- its agents, accounts and synchronisation, the frontend and the deployment.
pub mod Prelude
pub mod Models
pub mod Agents
pub mod Auth
pub mod Call
pub mod Transfer
pub mod Routing
pub mod Loader
pub mod Tools
pub mod Drift
pub mod Sync
pub mod Resilience
