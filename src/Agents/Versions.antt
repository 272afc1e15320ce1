-- ===== src/Agents/Versions.antt =====
-- The rows of an agent and of its versions, with the queries that
-- services/configuration-api/app/api/v1/agents.py runs on the versions of the one agent, to which its
-- pointer also belongs.
use live_kit_voice_agent.Prelude.{
  ℕ, Bool, true, false, Option, none, some, List, [], ◌∷◌, ◌==◌, leb, if◌then◌else◌,
}
use live_kit_voice_agent.Prelude.Text.{Text, text}
use live_kit_voice_agent.Models.{ResourceStatus}
use live_kit_voice_agent.Agents.Catalog.{Tier, Choice, Config, Grant}
use live_kit_voice_agent.Agents.Validation.{Entry}

pub data AgentVersionState : Type 0 where
  draft testing published archived : AgentVersionState

abbrev pub is_draft : AgentVersionState → Bool
is_draft draft = true
is_draft testing = false
is_draft published = false
is_draft archived = false

abbrev pub is_published : AgentVersionState → Bool
is_published draft = false
is_published testing = false
is_published published = true
is_published archived = false

-- The texts that `change_note` holds.
pub data ChangeNote : Type 0 where
  initial_draft : ChangeNote
  draft_from : ℕ → ChangeNote
  written : Text → ChangeNote

pub record AgentVersion : Type 0 where
  pub id : ℕ
  pub version_number : ℕ
  pub state : AgentVersionState
  pub config : Config
  pub grants : List Grant
  pub published_at : Option ℕ
  pub published_by_user_id : Option ℕ
  pub change_note : Option ChangeNote
  pub validation_errors : List Entry

pub record Agent : Type 0 where
  pub id : ℕ
  pub name : Text
  pub description : Option Text
  pub status : ResourceStatus
  pub published_version_id : Option ℕ
  pub versions : List AgentVersion

pub data Error : Type 0 where
  agent_not_found version_not_found no_draft already_published bad_reference name_taken : Error
  numbers_routed not_publishable : Error

-- A handler commits and returns a row, or raises.
pub data Result {ℓ} (A : Type ℓ) : Type ℓ where
  done : A → Result A
  raised : Error → A → Result A

-- The rows that the database holds after the handler.
abbrev pub rows {ℓ} : {A : Type ℓ} → Result A → A
rows (done a) = a
rows (raised e a) = a

abbrev pub no_choice : Tier → Choice
no_choice t = record { provider_id = none; model_id = none; voice_id = none }

-- The columns of a version that is created without them.
abbrev pub default_config : Config
default_config = record {
  system_prompt = [];
  choice = no_choice;
  transfer_enabled = false;
  transfer_announcement_text =
      some (text "Your call is being transferred to a human agent. Please wait.");
  knowledge_base_id = none;
  embedding_provider_id = none;
  embedding_model_id = none;
  others = [];
}

-- A draft that is added, with its number and what it takes over.
abbrev pub new_draft : ℕ → ℕ → ChangeNote → Config → List Grant → AgentVersion
new_draft i number reason config grants = record {
  id = i;
  version_number = number;
  state = draft;
  config = config;
  grants = grants;
  published_at = none;
  published_by_user_id = none;
  change_note = some reason;
  validation_errors = [];
}

-- `ORDER BY version_number DESC LIMIT 1`, where the numbers differ.
abbrev pub newer : AgentVersion → Option AgentVersion → AgentVersion
newer v none = v
newer v (some w) = if leb w.version_number v.version_number then v else w

unfoldable pub latest : (AgentVersion → Bool) → List AgentVersion → Option AgentVersion
latest test [] = none
latest test (v ∷ vs) = let rest = latest test vs in if test v then some (newer v rest) else rest

abbrev pub any_version : AgentVersion → Bool
any_version v = true

abbrev pub is_draft_version : AgentVersion → Bool
is_draft_version v = is_draft v.state

-- The row with the identifier is changed.
unfoldable pub update : ℕ → (AgentVersion → AgentVersion) → List AgentVersion → List AgentVersion
update i f [] = []
update i f (v ∷ vs) = (if v.id == i then f v else v) ∷ update i f vs
