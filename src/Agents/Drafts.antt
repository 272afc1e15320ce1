-- ===== src/Agents/Drafts.antt =====
-- What a save writes, and into which version.
use mathlib.Core.Path.{subst}
use live_kit_voice_agent.Prelude.{
  ℕ, ◌+◌, ◌≡◌, refl, ap, sym, ◌∙◌, true, false, Option, some, List, ◌∷◌, if◌then◌else◌, Memᴰ, arith,
  ==_iff,
}
use live_kit_voice_agent.Agents.Catalog.{Catalog, Config, Grant, Change, set_fields}
use live_kit_voice_agent.Agents.Versions.{
  AgentVersion, is_draft, Agent, done, latest, any_version, update,
}
use live_kit_voice_agent.Agents.Saving.{
  next_draft, editable_draft, write_draft, grants_or_kept, save_into, save_draft,
}
use live_kit_voice_agent.Agents.Rows.{update-mem, latest-mem}

-- The version that a save writes, as it is then in the rows: that of the identifier and the number,
-- with the changes made to a configuration and to its tools.
pub record IsSaved (changes : List Change) (tools : Option (List ℕ)) (i number : ℕ) (old : Config)
    (held : List Grant) (b : Agent) : Type 0 where
  pub row : AgentVersion
  pub mem : Memᴰ row b.versions
  pub id : row.id ≡ i
  pub version_number : row.version_number ≡ number
  pub state : is_draft row.state ≡ true
  pub config : row.config ≡ set_fields old changes
  pub grants : row.grants ≡ grants_or_kept tools held

module _ (c : Catalog) (changes : List Change) (tools : Option (List ℕ)) where
  save_into-IsSaved :
      (a : Agent) (vs : List AgentVersion) (v : AgentVersion)
      → Memᴰ v vs
      → is_draft v.state ≡ true
      → IsSaved changes tools v.id v.version_number v.config v.grants
          (save_into c changes tools a (vs, v))
  unfolding write_draft
  save_into-IsSaved a vs v m h = record {
    row = write_draft c changes tools v;
    mem =
        subst
          (λ b.
            Memᴰ (if b then write_draft c changes tools v else v)
              (update v.id (write_draft c changes tools) vs))
          ((==_iff v.id v.id).1 refl) (update-mem v.id (write_draft c changes tools) vs m);
    id = refl;
    version_number = refl;
    state = h;
    config = refl;
    grants = refl;
  }

  save_draft_done :
      (i : ℕ) (a b : Agent)
      → save_draft c i changes tools a ≡ done b
      → b ≡ save_into c changes tools a (editable_draft i a.versions)
  unfolding save_draft
  save_draft_done i a b h = ground arith

  save_draft-reused :
      (i : ℕ) (a : Agent) (v : AgentVersion)
      → latest any_version a.versions ≡ some v
      → is_draft v.state ≡ true
      → editable_draft i a.versions ≡ (a.versions, v)
  unfolding editable_draft
  save_draft-reused i a v l h = rw (l, h) refl

  save_draft-added :
      (i : ℕ) (a : Agent) (v : AgentVersion)
      → latest any_version a.versions ≡ some v
      → is_draft v.state ≡ false
      → editable_draft i a.versions ≡ (next_draft i (some v) ∷ a.versions, next_draft i (some v))
  unfolding editable_draft
  save_draft-added i a v l h = rw (l, h) refl

  -- Where the version with the greatest number is no draft, a save adds a draft of the next number and
  -- makes the changes to what that version holds, whichever version is published.
  pub save_draft-latest :
      (i : ℕ) (a b : Agent) (v : AgentVersion)
      → latest any_version a.versions ≡ some v
      → is_draft v.state ≡ false
      → save_draft c i changes tools a ≡ done b
      → IsSaved changes tools i (v.version_number + 1) v.config v.grants b
  save_draft-latest i a b v l h k =
      let d = next_draft i (some v) in
      let e = ap (save_into c changes tools a) (save_draft-added i a v l h) in
      subst (IsSaved changes tools i (v.version_number + 1) v.config v.grants)
        (sym (save_draft_done i a b k ∙ e))
        (save_into-IsSaved a (d ∷ a.versions) d (Memᴰ.head refl) refl)

  -- Where the version with the greatest number is a draft, a save makes the changes to it and adds no
  -- version.
  pub save_draft-draft :
      (i : ℕ) (a b : Agent) (v : AgentVersion)
      → latest any_version a.versions ≡ some v
      → is_draft v.state ≡ true
      → save_draft c i changes tools a ≡ done b
      → IsSaved changes tools v.id v.version_number v.config v.grants b
  save_draft-draft i a b v l h k =
      let e = ap (save_into c changes tools a) (save_draft-reused i a v l h) in
      subst (IsSaved changes tools v.id v.version_number v.config v.grants)
        (sym (save_draft_done i a b k ∙ e))
        (save_into-IsSaved a a.versions v (latest-mem any_version a.versions l) h)
