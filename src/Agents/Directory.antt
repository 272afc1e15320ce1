-- ===== src/Agents/Directory.antt =====
-- The agents of a tenant: `create_agent`, `update_agent` and `delete_agent` of
-- services/configuration-api/app/api/v1/agents.py, and the handlers of the versions on the agent that
-- the request names. Deleting an agent deletes its versions (`ON DELETE CASCADE`).
use live_kit_voice_agent.Prelude.{
  ℕ, Bool, false, not, ◌&&◌, Option, none, some, List, [], ◌∷◌, ◌==◌, if◌then◌else◌, find, is_some,
  any,
}
use live_kit_voice_agent.Prelude.Text.{Text, text_eq}
use live_kit_voice_agent.Models.{ResourceStatus, active}
use live_kit_voice_agent.Agents.Versions.{
  Agent, Result, done, raised, agent_not_found, name_taken, numbers_routed,
}
use live_kit_voice_agent.Agents.Saving.{next_draft}

pub record PhoneNumber : Type 0 where
  pub number : Text
  pub inbound_agent_id : Option ℕ

-- The tenant's rows.
pub record Directory : Type 0 where
  pub agents : List Agent
  pub phone_numbers : List PhoneNumber

-- `AgentUpdate`: what the request sets. A name is not set to NULL, which the column refuses.
pub record AgentUpdate : Type 0 where
  pub name : Option Text
  pub description : Option (Option Text)
  pub status : Option ResourceStatus

abbrev pub is_named : Text → Agent → Bool
is_named t a = text_eq a.name t

abbrev pub is_agent : ℕ → Agent → Bool
is_agent i a = a.id == i

-- `Agent(name=…, description=…)` with its first draft.
abbrev pub new_agent : ℕ → ℕ → Text → Option Text → Agent
new_agent i version name description = record {
  id = i;
  name = name;
  description = description;
  status = active;
  published_version_id = none;
  versions = next_draft version none ∷ [];
}

-- `create_agent`
unfoldable pub create_agent : ℕ → ℕ → Text → Option Text → Directory → Result Directory
create_agent i version name description d =
    if any (is_named name) d.agents
    then raised name_taken d
    else done (record d { agents = new_agent i version name description ∷ d.agents })

-- The row of the agent is replaced.
abbrev pub put_agent : ℕ → Agent → List Agent → List Agent
put_agent i b [] = []
put_agent i b (a ∷ rest) = if is_agent i a then b ∷ put_agent i b rest else a ∷ put_agent i b rest

abbrev pub or_old {ℓ} : {A : Type ℓ} → Option A → A → A
or_old none old = old
or_old (some a) old = a

-- `setattr(row, field, value)` for what is set.
abbrev pub set_agent : AgentUpdate → Agent → Agent
set_agent u a = record a {
  name = or_old u.name a.name;
  description = or_old u.description a.description;
  status = or_old u.status a.status;
}

abbrev pub is_other : ℕ → Text → Agent → Bool
is_other i t a = is_named t a && not (is_agent i a)

-- Another agent has the new name.
abbrev pub clashes : Option Text → Agent → List Agent → Bool
clashes none a agents = false
clashes (some t) a agents = not (text_eq t a.name) && any (is_other a.id t) agents

-- The request changes a row, or raises.
abbrev pub put_result : ℕ → Directory → Result Agent → Result Directory
put_result i d (done b) = done (record d { agents = put_agent i b d.agents })
put_result i d (raised e b) = raised e (record d { agents = put_agent i b d.agents })

abbrev pub on_found : ℕ → (Agent → Result Agent) → Directory → Option Agent → Result Directory
on_found i handler d none = raised agent_not_found d
on_found i handler d (some a) = put_result i d (handler a)

-- `repository.get(Agent, agent_id)`, and the handler on the row.
unfoldable pub on_agent : ℕ → (Agent → Result Agent) → Directory → Result Directory
on_agent i handler d = on_found i handler d (find (is_agent i) d.agents)

-- `update_agent`
unfoldable pub update_agent : ℕ → AgentUpdate → Directory → Result Directory
unfolding on_agent
update_agent i u d =
    on_agent i
      (λ a. if clashes u.name a d.agents then raised name_taken a else done (set_agent u a)) d

abbrev pub routes_to : ℕ → PhoneNumber → Bool
routes_to i n = elim n.inbound_agent_id [ none ↦ false | some j ↦ j == i ]

abbrev pub remove_agent : ℕ → List Agent → List Agent
remove_agent i [] = []
remove_agent i (a ∷ rest) = if is_agent i a then remove_agent i rest else a ∷ remove_agent i rest

-- `delete_agent`
unfoldable pub delete_agent : ℕ → Directory → Result Directory
delete_agent i d =
    if not (is_some (find (is_agent i) d.agents))
    then raised agent_not_found d
    else if any (routes_to i) d.phone_numbers
    then raised numbers_routed d
    else done (record d { agents = remove_agent i d.agents })
