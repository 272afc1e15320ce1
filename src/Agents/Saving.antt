-- ===== src/Agents/Saving.antt =====
-- `_editable_draft`, `_copy_tool_grants`, `_replace_tool_grants` and `save_draft` of
-- services/configuration-api/app/api/v1/agents.py. An operation that refuses returns the rows as it
-- leaves them.
use live_kit_voice_agent.Prelude.{
  ℕ, ◌+◌, Bool, true, Option, none, some, List, [], ◌∷◌, ◌==◌, if◌then◌else◌, any,
}
use live_kit_voice_agent.Agents.Catalog.{Catalog, Grant, Change, set_fields, set_change_note}
use live_kit_voice_agent.Agents.Validation.{issues, validate_version, validate_references}
use live_kit_voice_agent.Agents.Versions.{
  is_draft, ChangeNote, AgentVersion, Agent, Result, default_config, new_draft, latest, any_version,
  update, done, raised, initial_draft, draft_from, written, bad_reference,
}

-- The version with the new identifier that `_editable_draft` adds after the latest one. It copies the
-- columns and the grants.
abbrev pub next_draft : ℕ → Option AgentVersion → AgentVersion
next_draft i none = new_draft i 1 initial_draft default_config []
next_draft i (some v) =
    new_draft i (v.version_number + 1) (draft_from v.version_number) v.config v.grants

-- `_editable_draft`: the versions then, and the draft.
abbrev pub reuse_or_add :
    ℕ → List AgentVersion → Option AgentVersion → List AgentVersion × AgentVersion
reuse_or_add i vs none = (next_draft i none ∷ vs, next_draft i none)
reuse_or_add i vs (some v) =
    if is_draft v.state then (vs, v) else (next_draft i (some v) ∷ vs, next_draft i (some v))

unfoldable pub editable_draft : ℕ → List AgentVersion → List AgentVersion × AgentVersion
unfolding latest
editable_draft i vs = reuse_or_add i vs (latest any_version vs)

abbrev pub wants : List ℕ → ℕ → Bool
wants ids i = any (λ j. j == i) ids

abbrev pub keep_wanted : List ℕ → List Grant → List Grant
keep_wanted ids [] = []
keep_wanted ids (g ∷ gs) =
    if wants ids g.tool_id
    then record g { enabled = true } ∷ keep_wanted ids gs
    else keep_wanted ids gs

abbrev pub is_granted : List Grant → ℕ → Bool
is_granted grants i = any (λ g. g.tool_id == i) grants

-- Each identifier that has no row gets one, once.
abbrev pub add_missing : List Grant → List ℕ → List Grant
add_missing grants [] = grants
add_missing grants (i ∷ ids) =
    if is_granted grants i
    then add_missing grants ids
    else add_missing (record { tool_id = i; enabled = true } ∷ grants) ids

-- `_replace_tool_grants`
unfoldable pub replace_tool_grants : List Grant → List ℕ → List Grant
replace_tool_grants grants ids = add_missing (keep_wanted ids grants) ids

abbrev pub grants_or_kept : Option (List ℕ) → List Grant → List Grant
grants_or_kept none grants = grants
grants_or_kept (some ids) grants = replace_tool_grants grants ids

-- The note that the payload sets, if it sets one.
abbrev pub set_note : Option ChangeNote → List Change → Option ChangeNote
set_note old [] = old
set_note old (set_change_note none ∷ changes) = set_note none changes
set_note old (set_change_note (some t) ∷ changes) = set_note (some (written t)) changes
set_note old (_ ∷ changes) = set_note old changes

-- The draft with the changes of the payload and with its new validation.
unfoldable pub write_draft : Catalog → List Change → Option (List ℕ) → AgentVersion → AgentVersion
unfolding validate_version replace_tool_grants
write_draft c changes ids v =
    let config = set_fields v.config changes in
    let grants = grants_or_kept ids v.grants in
    record v {
      config = config;
      grants = grants;
      change_note = set_note v.change_note changes;
      validation_errors = issues (validate_version c config grants);
    }

-- The part of `save_draft` after the draft is known.
abbrev pub save_into :
    Catalog → List Change → Option (List ℕ) → Agent → List AgentVersion × AgentVersion → Agent
save_into c changes ids a (vs, v) = record a {
  versions = update v.id (write_draft c changes ids) vs;
}

-- `save_draft`. A reference that does not exist undoes what the handler did.
unfoldable pub save_draft : Catalog → ℕ → List Change → Option (List ℕ) → Agent → Result Agent
unfolding editable_draft validate_references write_draft update
save_draft c i changes ids a =
    if validate_references c changes ids
    then done (save_into c changes ids a (editable_draft i a.versions))
    else raised bad_reference a
