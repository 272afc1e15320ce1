-- ===== src/Agents.antt =====
-- The agents that a tenant configures: services/configuration-api/app/api/v1/agents.py with its rows
-- of app/db/models/agent.py and its payloads of app/schemas/agent.py.
mod Catalog
mod Validation
mod Versions
mod Saving
mod Publishing
mod Rows
mod Truthful
mod Lifecycle
mod Live
mod Directory
mod Distinct
mod Kept
mod Frozen
mod Usable
mod Publication
mod Refusals
mod Release
mod Drafts
mod Replacement
mod Consistent
mod Removal
mod Handlers
mod Requests
mod Tests
