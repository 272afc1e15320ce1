-- ===== src/Agents/Requests.antt =====
-- The requests about a tenant's agents as steps, and what every sequence of them keeps.
use live_kit_voice_agent.Prelude.{ℕ, ◌≡◌, true, false, not, Option, List, any}
use live_kit_voice_agent.Prelude.Sorting.{all}
use live_kit_voice_agent.Prelude.Text.{Text}
use live_kit_voice_agent.Agents.Catalog.{Catalog, Change}
use live_kit_voice_agent.Agents.Versions.{rows, latest, is_draft_version}
use live_kit_voice_agent.Agents.Saving.{save_draft}
use live_kit_voice_agent.Agents.Publishing.{publish_agent, rollback_agent, load_version}
use live_kit_voice_agent.Agents.Truthful.{has_id}
use live_kit_voice_agent.Agents.Lifecycle.{saves, publishes, rolls_back}
use live_kit_voice_agent.Agents.Directory.{
  Directory, AgentUpdate, is_agent, create_agent, on_agent, update_agent, delete_agent,
}
use live_kit_voice_agent.Agents.Consistent.{IsConsistent}
use live_kit_voice_agent.Agents.Handlers.{
  on_versions-IsConsistent, save_draft-IsSameAgent, publish_found-IsSameAgent,
  rollback_found-IsSameAgent, create_agent-IsConsistent, update_agent-IsConsistent,
  delete_agent-IsConsistent, fresh_version,
}

-- A handler that ran on a request, whatever it answered. New rows get identifiers that no row has.
pub data Request : Directory → Directory → Type 0 where
  creates :
      (i version : ℕ) (name : Text) (description : Option Text) {d : Directory}
      → any (is_agent i) d.agents ≡ false
      → Request d (rows (create_agent i version name description d))
  updates : (i : ℕ) (u : AgentUpdate) {d : Directory} → Request d (rows (update_agent i u d))
  deletes : (i : ℕ) {d : Directory} → Request d (rows (delete_agent i d))
  saves_draft :
      (i : ℕ) (c : Catalog) (n : ℕ) (changes : List Change) (tools : Option (List ℕ))
      {d : Directory}
      → all (λ a. not (any (has_id n) a.versions)) d.agents ≡ true
      → Request d (rows (on_agent i (save_draft c n changes tools) d))
  publishes_draft :
      (i : ℕ) (c : Catalog) (now user : ℕ) (change_note : Option Text) {d : Directory}
      → Request d (rows (on_agent i (publish_agent c now user change_note) d))
  rolls_back_to :
      (i : ℕ) (c : Catalog) (now user number : ℕ) {d : Directory}
      → Request d (rows (on_agent i (rollback_agent c now user number) d))

pub data Requests (d : Directory) : Directory → Type 0 where
  none_yet : Requests d d
  more : {e f : Directory} → Requests d e → Request e f → Requests d f

Request-IsConsistent : {d e : Directory} → Request d e → IsConsistent d → IsConsistent e
unfolding publish_agent rollback_agent
Request-IsConsistent (creates i version name description {d} h) w =
    create_agent-IsConsistent i version name description d h w
Request-IsConsistent (updates i u {d}) w = update_agent-IsConsistent u d w i
Request-IsConsistent (deletes i {d}) w = delete_agent-IsConsistent i d w
Request-IsConsistent (saves_draft i c n changes tools {d} h) w =
    on_versions-IsConsistent i (save_draft c n changes tools) d
      (save_draft-IsSameAgent c n changes tools)
      (λ a m. saves c n changes tools (fresh_version n d.agents h m)) w
Request-IsConsistent (publishes_draft i c now user change_note {d}) w =
    on_versions-IsConsistent i (publish_agent c now user change_note) d
      (λ a. publish_found-IsSameAgent c now user change_note a (latest is_draft_version a.versions))
      (λ a m. publishes c now user change_note) w
Request-IsConsistent (rolls_back_to i c now user number {d}) w =
    on_versions-IsConsistent i (rollback_agent c now user number) d
      (λ a. rollback_found-IsSameAgent c now user a (load_version number a.versions))
      (λ a m. rolls_back c now user number) w

-- Whatever requests a tenant's agents are given, and whatever those answer, the names of the agents
-- differ, every phone number that names an agent is answered by one that exists, and of each agent
-- the version that the pointer names is the one that is published; if it is so at the start.
pub Requests-IsConsistent : {d e : Directory} → IsConsistent d → Requests d e → IsConsistent e
Requests-IsConsistent w none_yet = w
Requests-IsConsistent w (more r s) = Request-IsConsistent s (Requests-IsConsistent w r)
