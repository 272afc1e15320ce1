-- ===== src/Agents/Frozen.antt =====
-- That what a version was published with is never changed.
use live_kit_voice_agent.Prelude.{
  ℕ, ◌≡◌, refl, false, Option, none, some, List, ◌∷◌, any, Memᴰ, Bool-cases, inl, inr,
}
use live_kit_voice_agent.Prelude.Text.{Text}
use live_kit_voice_agent.Agents.Catalog.{Catalog, Change}
use live_kit_voice_agent.Agents.Validation.{validate_references, validate_version, is_publishable}
use live_kit_voice_agent.Agents.Versions.{
  AgentVersion, is_draft, Agent, rows, latest, any_version, is_draft_version, update,
}
use live_kit_voice_agent.Agents.Saving.{
  next_draft, reuse_or_add, editable_draft, write_draft, save_into, save_draft,
}
use live_kit_voice_agent.Agents.Publishing.{
  note_errors, publish_version, publish_found, publish_agent, is_pointer, rollback_to,
  rollback_found, load_version, rollback_agent,
}
use live_kit_voice_agent.Agents.Rows.{latest-mem}
use live_kit_voice_agent.Agents.Truthful.{has_id, IsTruthful}
use live_kit_voice_agent.Agents.Lifecycle.{
  Step, saves, publishes, rolls_back, Reach, here, next, Reach-IsTruthful,
}
use live_kit_voice_agent.Agents.Kept.{
  IsIn, IsKept-trans, IsIn-here, IsIn-update, IsIn-other, IsIn-put_live,
}
use live_kit_voice_agent.Agents.Distinct.{draft-differs, fresh-differs}

module _ (c : Catalog) (changes : List Change) (tools : Option (List ℕ)) where
  save_reused :
      (i : ℕ) (a : Agent) {v : AgentVersion} (o : Option AgentVersion)
      → latest any_version a.versions ≡ o
      → any (has_id i) a.versions ≡ false
      → IsTruthful a
      → Memᴰ v a.versions
      → is_draft v.state ≡ false
      → IsIn v (save_into c changes tools a (reuse_or_add i a.versions o)).versions
  save_reused i a {v} none l h t m k =
      IsIn-other i (write_draft c changes tools) (next_draft i none ∷ a.versions)
        (fresh-differs i a.versions h m)
        (IsIn-here v (next_draft i none ∷ a.versions) k (Memᴰ.tail m))
  save_reused i a {v} (some w) l h t m k = elim (Bool-cases (is_draft w.state)) [
    | inr e ↦ rw e (
        IsIn-other i (write_draft c changes tools) (next_draft i (some w) ∷ a.versions)
          (fresh-differs i a.versions h m)
          (IsIn-here v (next_draft i (some w) ∷ a.versions) k (Memᴰ.tail m)))
    | inl e ↦
        let n = latest-mem any_version a.versions l in
        rw e (
          IsIn-other w.id (write_draft c changes tools) a.versions
            (draft-differs a.versions t.ids_distinct m n k e) (IsIn-here v a.versions k m))
  ]

  save_draft-IsIn :
      (i : ℕ) (a : Agent) {v : AgentVersion}
      → any (has_id i) a.versions ≡ false
      → IsTruthful a
      → Memᴰ v a.versions
      → is_draft v.state ≡ false
      → IsIn v (rows (save_draft c i changes tools a)).versions
  unfolding save_draft editable_draft
  save_draft-IsIn i a {v} h t m k = elim (Bool-cases (validate_references c changes tools)) [
    | inr e ↦ rw e (IsIn-here v a.versions k m)
    | inl e ↦ rw e (save_reused i a (latest any_version a.versions) refl h t m k)
  ]

module _ (c : Catalog) (now user : ℕ) where
  publish_version-IsIn :
      (change_note : Option Text) (a : Agent) (d : AgentVersion) {v : AgentVersion}
      → IsIn v a.versions
      → IsIn v (rows (publish_version c now user change_note a d)).versions
  unfolding publish_version
  publish_version-IsIn change_note a d h =
      let report = validate_version c d.config d.grants in
      let noted = record a { versions = update d.id (note_errors report) a.versions } in
      let n =
        IsIn-update d.id (note_errors report) a.versions
          (λ w k. record {
            id = refl;
            version_number = refl;
            config = refl;
            grants = refl;
            state = k;
          })
          h in
      elim (Bool-cases (is_publishable report)) [
        | inr e ↦ rw e n
        | inl e ↦ rw e (IsIn-put_live now user change_note d.id noted n)
      ]

  publish_found-IsIn :
      (change_note : Option Text) (a : Agent) (o : Option AgentVersion) {v : AgentVersion}
      → IsIn v a.versions
      → IsIn v (rows (publish_found c now user change_note a o)).versions
  publish_found-IsIn change_note a none h = h
  publish_found-IsIn change_note a (some d) h = publish_version-IsIn change_note a d h

  rollback_found-IsIn :
      (a : Agent) (o : Option AgentVersion) {v : AgentVersion}
      → IsIn v a.versions
      → IsIn v (rows (rollback_found c now user a o)).versions
  unfolding rollback_to
  rollback_found-IsIn a none h = h
  rollback_found-IsIn a (some d) h = elim (Bool-cases (is_pointer a.published_version_id d.id)) [
    | inl e ↦ rw e h
    | inr e ↦ elim (Bool-cases (is_publishable (validate_version c d.config d.grants))) [
      | inr f ↦ rw (e, f) h
      | inl f ↦ rw (e, f) (IsIn-put_live now user none d.id a h)
    ]
  ]

pub Step-IsIn :
    {a b : Agent} {v : AgentVersion}
    → IsTruthful a
    → Step a b
    → Memᴰ v a.versions
    → is_draft v.state ≡ false
    → IsIn v b.versions
unfolding publish_agent rollback_agent
Step-IsIn t (saves c i changes tools {a} h) m k = save_draft-IsIn c changes tools i a h t m k
Step-IsIn {v} t (publishes c now user change_note {a}) m k =
    publish_found-IsIn c now user change_note a (latest is_draft_version a.versions)
      (IsIn-here v a.versions k m)
Step-IsIn {v} t (rolls_back c now user number {a}) m k =
    rollback_found-IsIn c now user a (load_version number a.versions) (IsIn-here v a.versions k m)

-- Once a version is no draft, because it was published, it stays in the rows with its number, its
-- configuration and its tools, whatever is saved, published and rolled back to afterwards, and it is
-- never a draft again; where the identifiers and numbers of the versions differ at the start and the
-- states are those that the pointer tells.
pub Reach-IsIn :
    {a b : Agent} {v : AgentVersion}
    → IsTruthful a
    → Reach a b
    → Memᴰ v a.versions
    → is_draft v.state ≡ false
    → IsIn v b.versions
Reach-IsIn {a} {v} t here m k = IsIn-here v a.versions k m
Reach-IsIn t (next r s) m k =
    let before = Reach-IsIn t r m k in
    let after = Step-IsIn (Reach-IsTruthful t r) s before.mem before.kept.state in
    record { row = after.row; mem = after.mem; kept = IsKept-trans before.kept after.kept }
