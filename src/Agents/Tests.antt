-- ===== src/Agents/Tests.antt =====
-- An agent whose first version is published and then rolled back to, with the rows it needs.
use live_kit_voice_agent.Prelude.{
  ◌≡◌, refl, true, false, none, some, List, [], ◌∷◌, Memᴰ, is_some, if◌then◌else◌,
}
use live_kit_voice_agent.Prelude.Text.{text, strip}
use live_kit_voice_agent.Models.{active}
use live_kit_voice_agent.Agents.Catalog.{
  Catalog, stt, llm, tts, Change, set_system_prompt, set_provider_id, set_model_id,
}
use live_kit_voice_agent.Agents.Versions.{
  AgentVersion, is_draft, archived, published, Agent, rows, done, latest, any_version,
  is_draft_version,
}
use live_kit_voice_agent.Agents.Saving.{next_draft, save_draft}
use live_kit_voice_agent.Agents.Publishing.{publish_agent, rollback_agent}
use live_kit_voice_agent.Agents.Truthful.{IsTruthful}
use live_kit_voice_agent.Agents.Lifecycle.{Step, saves, publishes, rolls_back, Reach, here, next}
use live_kit_voice_agent.Agents.Live.{count_published, Reach-count_published}
use live_kit_voice_agent.Agents.Kept.{IsIn}
use live_kit_voice_agent.Agents.Frozen.{Reach-IsIn}
use live_kit_voice_agent.Agents.Usable.{IsUsable}
use live_kit_voice_agent.Agents.Publication.{IsLive, publish_agent-IsLive}
use live_kit_voice_agent.Agents.Release.{IsRelease, event_of, live, Step-IsRelease}
use live_kit_voice_agent.Agents.Drafts.{IsSaved, save_draft-latest}
use live_kit_voice_agent.Agents.Directory.{Directory, new_agent, create_agent, delete_agent}
use live_kit_voice_agent.Agents.Consistent.{IsConsistent}
use live_kit_voice_agent.Agents.Requests.{none_yet, more, deletes, creates, Requests-IsConsistent}

abbrev catalog : Catalog
catalog = record {
  providers = record { id = 1; status = active; requires_credential = true } ∷ [];
  models = 5 ∷ [];
  voices = [];
  credentials = record { provider_id = 1; status = active } ∷ [];
  knowledge_bases = [];
  tools = [];
}

abbrev changes : List Change
changes =
    set_system_prompt (text "Help the caller.")
    ∷ set_provider_id stt (some 1)
    ∷ set_model_id stt (some 5)
    ∷ set_provider_id llm (some 1)
    ∷ set_model_id llm (some 5)
    ∷ set_provider_id tts (some 1)
    ∷ set_model_id tts (some 5)
    ∷ []

abbrev created : Agent
created = new_agent 7 20 (text "Reception") none

created-IsTruthful : IsTruthful created
created-IsTruthful = record {
  ids_distinct = refl;
  numbers_distinct = refl;
  told = refl;
  present = refl;
}

abbrev saved : Agent
saved = rows (save_draft catalog 21 changes none created)

abbrev live_one : Agent
live_one = rows (publish_agent catalog 100 3 none saved)

abbrev edited : Agent
edited = rows (save_draft catalog 22 (set_system_prompt (text "Sell.") ∷ []) none live_one)

abbrev live_two : Agent
live_two = rows (publish_agent catalog 200 3 none edited)

abbrev restored : Agent
restored = rows (rollback_agent catalog 300 3 1 live_two)

-- From the creation to the rollback.
saving : Reach created saved
saving = next here (saves catalog 21 changes none refl)

whole_run : Reach created restored
unfolding save_draft publish_agent rollback_agent strip
whole_run =
    next
      (next
        (next (next saving (publishes catalog 100 3 none))
          (saves catalog 22 (set_system_prompt (text "Sell.") ∷ []) none refl))
        (publishes catalog 200 3 none))
      (rolls_back catalog 300 3 1)

saved-IsTruthful : IsTruthful saved
saved-IsTruthful = (Reach-count_published created-IsTruthful saving).0

Reach-count_published_example :
    IsTruthful restored
    × (count_published restored.versions ≡ (if is_some restored.published_version_id then 1 else 0))
Reach-count_published_example = Reach-count_published created-IsTruthful whole_run

publishes_saved : publish_agent catalog 100 3 none saved ≡ done live_one
unfolding save_draft publish_agent strip
publishes_saved = refl

published_once : count_published live_one.versions ≡ 1
unfolding save_draft publish_agent strip
published_once = refl

live_one-IsTruthful : IsTruthful live_one
live_one-IsTruthful =
    (Reach-count_published created-IsTruthful (next saving (publishes catalog 100 3 none))).0

abbrev first : AgentVersion
first = record (next_draft 20 none) { id = 20 }

-- The first version, as it was published.
abbrev released : AgentVersion
released = elim live_one.versions [ [] ↦ first | v ∷ vs ↦ v ]

later_run : Reach live_one restored
unfolding save_draft publish_agent rollback_agent strip
later_run =
    next
      (next (next here (saves catalog 22 (set_system_prompt (text "Sell.") ∷ []) none refl))
        (publishes catalog 200 3 none))
      (rolls_back catalog 300 3 1)

released-mem : Memᴰ released live_one.versions
unfolding save_draft publish_agent strip
released-mem = Memᴰ.head refl

released_state : is_draft released.state ≡ false
unfolding save_draft publish_agent strip
released_state = refl

Reach-IsIn_example : IsIn released restored.versions
Reach-IsIn_example = Reach-IsIn live_one-IsTruthful later_run released-mem released_state

abbrev publication : Step saved live_one
publication = publishes catalog 100 3 none

Step-IsRelease_example : IsRelease (event_of publication) (live saved) (live live_one)
Step-IsRelease_example = Step-IsRelease saved-IsTruthful publication

publish_agent-IsLive_example :
    (v : AgentVersion) × (latest is_draft_version saved.versions ≡ some v)
    × IsUsable catalog v.config v.grants
    × IsLive v live_one
publish_agent-IsLive_example =
    publish_agent-IsLive catalog 100 3 none saved live_one publishes_saved

abbrev second : AgentVersion
second = record first { id = 22; version_number = 2; state = archived }

-- The first version is live again, and the second is archived.
abbrev after_rollback : Agent
after_rollback = record created {
  versions = second ∷ record first { state = published } ∷ [];
  published_version_id = some 20;
}

abbrev prompt : List Change
prompt = set_system_prompt (text "Ask.") ∷ []

second-latest : latest any_version after_rollback.versions ≡ some second
unfolding latest
second-latest = refl

third_saved :
    save_draft catalog 23 prompt none after_rollback
    ≡ done (rows (save_draft catalog 23 prompt none after_rollback))
unfolding save_draft
third_saved = refl

save_draft-latest_example :
    IsSaved prompt none 23 3 second.config second.grants
      (rows (save_draft catalog 23 prompt none after_rollback))
save_draft-latest_example =
    save_draft-latest catalog prompt none 23 after_rollback
      (rows (save_draft catalog 23 prompt none after_rollback)) second second-latest refl
      third_saved

abbrev office : Directory
office = record {
  agents = created ∷ [];
  phone_numbers = record { number = text "+49"; inbound_agent_id = some 7 } ∷ [];
}

office-IsConsistent : IsConsistent office
office-IsConsistent = record {
  ids = refl;
  names = refl;
  answered = refl;
  truthful = (created-IsTruthful, tt);
}

abbrev extended : Directory
extended = rows (create_agent 8 30 (text "Sales") none office)

Requests-IsConsistent_example : IsConsistent (rows (delete_agent 7 extended))
Requests-IsConsistent_example =
    Requests-IsConsistent office-IsConsistent
      (more (more none_yet (creates 8 30 (text "Sales") none refl)) (deletes 7))
