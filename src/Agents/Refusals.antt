-- ===== src/Agents/Refusals.antt =====
-- What a refused publication leaves.
use mathlib.Core.Path.{subst}
use live_kit_voice_agent.Prelude.{
  ℕ, ◌≡◌, refl, ap, sym, ◌∙◌, Option, none, some, List, map, arith, Bool-cases, inl, inr,
}
use live_kit_voice_agent.Prelude.Text.{Text}
use live_kit_voice_agent.Agents.Catalog.{Catalog}
use live_kit_voice_agent.Agents.Validation.{Entry, validate_version, is_publishable}
use live_kit_voice_agent.Agents.Versions.{
  AgentVersion, Agent, Error, raised, rows, latest, is_draft_version, update,
}
use live_kit_voice_agent.Agents.Publishing.{note_errors, publish_found, publish_agent}
use live_kit_voice_agent.Agents.Rows.{update-map}
use live_kit_voice_agent.Agents.Publication.{publish_version_done, publish_version_raised}

-- What a refusal leaves: the pointer, and the versions with their states, configurations and tools.
pub record IsUntouched (a b : Agent) : Type 0 where
  pub pointer : b.published_version_id ≡ a.published_version_id
  pub ids : map (λ v. v.id) b.versions ≡ map (λ v. v.id) a.versions
  pub states : map (λ v. v.state) b.versions ≡ map (λ v. v.state) a.versions
  pub configs : map (λ v. v.config) b.versions ≡ map (λ v. v.config) a.versions
  pub grants : map (λ v. v.grants) b.versions ≡ map (λ v. v.grants) a.versions

IsUntouched-refl : (a : Agent) → IsUntouched a a
IsUntouched-refl a = record {
  pointer = refl;
  ids = refl;
  states = refl;
  configs = refl;
  grants = refl;
}

noted-IsUntouched :
    (report : List Entry) (i : ℕ) (a : Agent)
    → IsUntouched a (record a { versions = update i (note_errors report) a.versions })
noted-IsUntouched report i a =
    let f = note_errors report in
    record {
      pointer = refl;
      ids = update-map (λ v. v.id) i f a.versions (λ v. refl);
      states = update-map (λ v. v.state) i f a.versions (λ v. refl);
      configs = update-map (λ v. v.config) i f a.versions (λ v. refl);
      grants = update-map (λ v. v.grants) i f a.versions (λ v. refl);
    }

module _ (c : Catalog) (now user : ℕ) where
  publish_found-IsUntouched :
      (change_note : Option Text) (a b : Agent) (o : Option AgentVersion) (e : Error)
      → publish_found c now user change_note a o ≡ raised e b
      → IsUntouched a b
  publish_found-IsUntouched change_note a b none e h =
      subst (IsUntouched a) (ap rows h) (IsUntouched-refl a)
  publish_found-IsUntouched change_note a b (some v) e h =
      let report = validate_version c v.config v.grants in
      elim (Bool-cases (is_publishable report)) [
        | inl k ↦ absurd (ground (arith, publish_version_done c now user change_note a v k))
        | inr k ↦
            let same = ap rows (sym (publish_version_raised c now user change_note a v k) ∙ h) in
            subst (IsUntouched a) same (noted-IsUntouched report v.id a)
      ]

  -- Where publishing is refused, for want of a draft or because the draft does not pass the validation,
  -- the pointer is what it was, and so are the states, the configurations and the tools of the versions.
  pub publish_agent-IsUntouched :
      (change_note : Option Text) (a b : Agent) (e : Error)
      → publish_agent c now user change_note a ≡ raised e b
      → IsUntouched a b
  unfolding publish_agent
  publish_agent-IsUntouched change_note a b e h =
      publish_found-IsUntouched change_note a b (latest is_draft_version a.versions) e h
