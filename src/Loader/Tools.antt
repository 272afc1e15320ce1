-- ===== src/Loader/Tools.antt =====
-- `_load_tools` of services/ai-agent-worker/worker/config_loader.py: which of a version's tools an agent
-- may call. The rows of the two queries are arguments; the secrets, the headers and the schema of a
-- tool are not modelled, but for the required arguments.
use live_kit_voice_agent.Prelude.{
  ℕ, Bool, true, false, not, ◌&&◌, Option, none, some, List, [], ◌∷◌, if◌then◌else◌, is_some, ◌==◌,
}
use live_kit_voice_agent.Prelude.Text.{Text}
use live_kit_voice_agent.Tools.Runtime.{ToolDefinition, Required}

-- A row of `_TOOL_PERMISSIONS_SQL`: of this agent, or of every agent where it names none.
pub record Permission (V : Type 0) : Type 0 where
  pub tool_id : ℕ
  pub agent_id : Option ℕ
  pub allowed : Bool
  pub max_calls_per_conversation : Option ℕ
  pub denied_arguments : Option (List (Text × V))

-- A row of `_TOOLS_SQL`.
pub record ToolRow : Type 0 where
  pub id : ℕ
  pub name : Text
  pub required : Required
  pub is_builtin : Bool

abbrev pub Permissions : Type 0 → Type 0
Permissions V = List (ℕ × Permission V)

module _ {V : Type 0} where
  -- `permissions.get(tool_id)`
  abbrev pub permission : Permissions V → ℕ → Option (Permission V)
  permission [] i = none
  permission ((j, p) ∷ m) i = if j == i then some p else permission m i

  -- `permissions[tool_id] = perm`
  abbrev pub set_permission : Permissions V → ℕ → Permission V → Permissions V
  set_permission [] i p = (i, p) ∷ []
  set_permission ((j, old) ∷ m) i p =
      let rest = set_permission m i p in if j == i then (j, p) ∷ m else (j, old) ∷ rest

  -- Whether a row replaces the one that is there.
  abbrev pub replaces : Option (Permission V) → Permission V → Bool
  replaces none p = true
  replaces (some existing) p = is_some p.agent_id && not (is_some existing.agent_id)

  -- The loop over the permissions.
  unfoldable pub add_permissions : Permissions V → List (Permission V) → Permissions V
  add_permissions m [] = m
  add_permissions m (p ∷ ps) =
      add_permissions
        (if replaces (permission m p.tool_id) p then set_permission m p.tool_id p else m) ps

  -- `perm is not None and perm["allowed"] is False`
  abbrev pub is_refused : Option (Permission V) → Bool
  is_refused none = false
  is_refused (some p) = not p.allowed

  abbrev pub limit_of : Option (Permission V) → ℕ
  limit_of none = 5
  limit_of (some p) = elim p.max_calls_per_conversation [ none ↦ 5 | some n ↦ n ]

  abbrev pub denied_of : Option (Permission V) → List (Text × V)
  denied_of none = []
  denied_of (some p) = elim p.denied_arguments [ none ↦ [] | some ds ↦ ds ]

  abbrev pub define : ToolRow → Option (Permission V) → ToolDefinition V
  define r p = record {
    name = r.name;
    required = r.required;
    denied_arguments = denied_of p;
    max_calls_per_conversation = some (limit_of p);
    is_builtin = r.is_builtin;
  }

  -- The loop over the tools.
  unfoldable pub grant_tools : Permissions V → List ToolRow → List (ToolDefinition V)
  grant_tools m [] = []
  grant_tools m (r ∷ rs) =
      let rest = grant_tools m rs in
      if is_refused (permission m r.id) then rest else define r (permission m r.id) ∷ rest

  -- `_load_tools`
  unfoldable pub load_tools : List ToolRow → List (Permission V) → List (ToolDefinition V)
  unfolding add_permissions grant_tools
  load_tools rows perms = grant_tools (add_permissions [] perms) rows
