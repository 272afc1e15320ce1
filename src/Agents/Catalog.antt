-- ===== src/Agents/Catalog.antt =====
-- The rows that an agent's versions refer to, and the configuration of a version: the provider tiers
-- of services/configuration-api/app/api/v1/agents.py (`_PROVIDER_TIERS`), and `AgentVersion` and
-- `AgentTool` of app/db/models/agent.py with `AgentVersionConfig` of app/schemas/agent.py.
use live_kit_voice_agent.Prelude.{ℕ, Bool, Option, List, [], ◌∷◌, ◌==◌, if◌then◌else◌}
use live_kit_voice_agent.Prelude.Text.{Text}
use live_kit_voice_agent.Models.{ResourceStatus}

pub record Provider : Type 0 where
  pub id : ℕ
  pub status : ResourceStatus
  pub requires_credential : Bool

-- A row of `provider_credentials` of the tenant.
pub record Credential : Type 0 where
  pub provider_id : ℕ
  pub status : ResourceStatus

pub record Voice : Type 0 where
  pub id : ℕ
  pub provider_id : ℕ
  pub status : ResourceStatus

pub record KnowledgeBase : Type 0 where
  pub id : ℕ
  pub status : ResourceStatus

pub record Tool : Type 0 where
  pub id : ℕ
  pub status : ResourceStatus
  pub schema_valid : Bool

-- What the database holds beside the agents: the platform's providers, models and voices, and the
-- tenant's credentials, knowledge bases and tools.
pub record Catalog : Type 0 where
  pub providers : List Provider
  pub models : List ℕ
  pub voices : List Voice
  pub credentials : List Credential
  pub knowledge_bases : List KnowledgeBase
  pub tools : List Tool

-- `_PROVIDER_TIERS`
pub data Tier : Type 0 where
  stt llm tts stt_fallback llm_fallback tts_fallback stt_local tts_local : Tier

abbrev pub ordinal : Tier → ℕ
ordinal stt = 0
ordinal llm = 1
ordinal tts = 2
ordinal stt_fallback = 3
ordinal llm_fallback = 4
ordinal tts_fallback = 5
ordinal stt_local = 6
ordinal tts_local = 7

-- The columns of a tier. Those of a tier that speaks have a voice.
pub record Choice : Type 0 where
  pub provider_id : Option ℕ
  pub model_id : Option ℕ
  pub voice_id : Option ℕ

-- The columns of a version that a draft may change. Those that nothing here reads are in `others`, by
-- their names; one that is not there holds its default.
pub record Config : Type 0 where
  pub system_prompt : Text
  pub choice : Tier → Choice
  pub transfer_enabled : Bool
  pub transfer_announcement_text : Option Text
  pub knowledge_base_id : Option ℕ
  pub embedding_provider_id : Option ℕ
  pub embedding_model_id : Option ℕ
  pub others : List (Text × Text)

-- A row of `agent_tools` of the version.
pub record Grant : Type 0 where
  pub tool_id : ℕ
  pub enabled : Bool

-- A field that the payload sets. A column that cannot be NULL is set to a value.
pub data Change : Type 0 where
  set_system_prompt : Text → Change
  set_provider_id set_model_id set_voice_id : Tier → Option ℕ → Change
  set_transfer_enabled : Bool → Change
  set_transfer_announcement_text set_change_note : Option Text → Change
  set_knowledge_base_id set_embedding_provider_id set_embedding_model_id : Option ℕ → Change
  set_other : Text → Text → Change

abbrev pub set_choice : Tier → (Choice → Choice) → Config → Config
set_choice t f c = record c {
  choice = λ u. if ordinal u == ordinal t then f (c.choice u) else c.choice u;
}

-- `setattr(draft, field, value)`, for the columns of the configuration.
abbrev pub set_field : Config → Change → Config
set_field c (set_system_prompt value) = record c { system_prompt = value }
set_field c (set_provider_id t value) =
    set_choice t (λ choice. record choice { provider_id = value }) c
set_field c (set_model_id t value) = set_choice t (λ choice. record choice { model_id = value }) c
set_field c (set_voice_id t value) = set_choice t (λ choice. record choice { voice_id = value }) c
set_field c (set_transfer_enabled value) = record c { transfer_enabled = value }
set_field c (set_transfer_announcement_text value) = record c { transfer_announcement_text = value }
set_field c (set_change_note value) = c
set_field c (set_knowledge_base_id value) = record c { knowledge_base_id = value }
set_field c (set_embedding_provider_id value) = record c { embedding_provider_id = value }
set_field c (set_embedding_model_id value) = record c { embedding_model_id = value }
set_field c (set_other column value) = record c { others = (column, value) ∷ c.others }

abbrev pub set_fields : Config → List Change → Config
set_fields c [] = c
set_fields c (change ∷ changes) = set_fields (set_field c change) changes
