-- ===== src/Agents/Publishing.antt =====
-- `publish_agent` and `rollback_agent` of services/configuration-api/app/api/v1/agents.py. An
-- operation that refuses returns the rows as it leaves them.
use live_kit_voice_agent.Prelude.{
  ℕ, Bool, false, not, Option, none, some, List, ◌==◌, if◌then◌else◌, find,
}
use live_kit_voice_agent.Prelude.Text.{Text, is_truthy}
use live_kit_voice_agent.Agents.Catalog.{Catalog}
use live_kit_voice_agent.Agents.Validation.{Entry, issues, validate_version, is_publishable}
use live_kit_voice_agent.Agents.Versions.{
  is_published, ChangeNote, AgentVersion, Agent, Result, latest, is_draft_version, update,
  published, archived, done, raised, written, version_not_found, no_draft, already_published,
  not_publishable,
}

-- `old.state = AgentVersionState.ARCHIVED`, where the pointer names a published version.
abbrev pub archive : AgentVersion → AgentVersion
archive v = if is_published v.state then record v { state = archived } else v

abbrev pub archive_published : Option ℕ → List AgentVersion → List AgentVersion
archive_published none vs = vs
archive_published (some i) vs = update i archive vs

abbrev pub or_note : Option Text → Option ChangeNote → Option ChangeNote
or_note none old = old
or_note (some t) old = if is_truthy t then some (written t) else old

-- What publication writes on the version.
abbrev pub mark_published : ℕ → ℕ → Option Text → AgentVersion → AgentVersion
mark_published now user change_note v = record v {
  state = published;
  published_at = some now;
  published_by_user_id = some user;
  change_note = or_note change_note v.change_note;
}

-- The version replaces the published one.
unfoldable pub put_live : ℕ → ℕ → Option Text → ℕ → Agent → Agent
unfolding update
put_live now user change_note i a = record a {
  versions =
      update i (mark_published now user change_note)
        (archive_published a.published_version_id a.versions);
  published_version_id = some i;
}

-- `draft.validation_errors = …`
abbrev pub note_errors : List Entry → AgentVersion → AgentVersion
note_errors report v = record v { validation_errors = issues report }

-- The part of `publish_agent` after the draft is known.
unfoldable pub publish_version : Catalog → ℕ → ℕ → Option Text → Agent → AgentVersion → Result Agent
unfolding validate_version is_publishable put_live update
publish_version c now user change_note a v =
    let report = validate_version c v.config v.grants in
    let noted = record a { versions = update v.id (note_errors report) a.versions } in
    if is_publishable report
    then done (put_live now user change_note v.id noted)
    else raised not_publishable noted

abbrev pub publish_found :
    Catalog → ℕ → ℕ → Option Text → Agent → Option AgentVersion → Result Agent
publish_found c now user change_note a none = raised no_draft a
publish_found c now user change_note a (some v) = publish_version c now user change_note a v

-- `publish_agent`
unfoldable pub publish_agent : Catalog → ℕ → ℕ → Option Text → Agent → Result Agent
unfolding latest publish_version
publish_agent c now user change_note a =
    publish_found c now user change_note a (latest is_draft_version a.versions)

abbrev pub is_pointer : Option ℕ → ℕ → Bool
is_pointer none i = false
is_pointer (some j) i = i == j

-- The part of `rollback_agent` after the version is known.
unfoldable pub rollback_to : Catalog → ℕ → ℕ → Agent → AgentVersion → Result Agent
unfolding validate_version is_publishable put_live
rollback_to c now user a v =
    if is_pointer a.published_version_id v.id
    then raised already_published a
    else if not (is_publishable (validate_version c v.config v.grants))
    then raised not_publishable a
    else done (put_live now user none v.id a)

-- `_load_version`, where the agent exists.
abbrev pub load_version : ℕ → List AgentVersion → Option AgentVersion
load_version number vs = find (λ v. v.version_number == number) vs

abbrev pub rollback_found : Catalog → ℕ → ℕ → Agent → Option AgentVersion → Result Agent
rollback_found c now user a none = raised version_not_found a
rollback_found c now user a (some v) = rollback_to c now user a v

-- `rollback_agent`
unfoldable pub rollback_agent : Catalog → ℕ → ℕ → ℕ → Agent → Result Agent
unfolding rollback_to
rollback_agent c now user number a = rollback_found c now user a (load_version number a.versions)
