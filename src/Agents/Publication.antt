-- ===== src/Agents/Publication.antt =====
-- What publishing and rolling back make live, and what they leave alone when they refuse.
use mathlib.Core.Path.{subst}
use live_kit_voice_agent.Prelude.{
  ℕ, ◌≡◌, refl, ap, sym, ◌∙◌, true, false, Option, none, some, List, ◌==◌, if◌then◌else◌, Memᴰ,
  arith, Bool-cases, inl, inr, ==_iff,
}
use live_kit_voice_agent.Prelude.Finding.{find-mem}
use live_kit_voice_agent.Prelude.Text.{Text}
use live_kit_voice_agent.Agents.Catalog.{Catalog}
use live_kit_voice_agent.Agents.Validation.{Entry, validate_version, is_publishable}
use live_kit_voice_agent.Agents.Versions.{
  AgentVersion, published, is_published, Agent, done, raised, not_publishable, not_publishable,
  rows, latest, is_draft_version, update,
}
use live_kit_voice_agent.Agents.Publishing.{
  archive, archive_published, mark_published, put_live, note_errors, publish_version, publish_found,
  publish_agent, is_pointer, rollback_to, rollback_found, load_version, rollback_agent,
}
use live_kit_voice_agent.Agents.Rows.{update_one, update-mem, latest-mem}
use live_kit_voice_agent.Agents.Usable.{IsUsable, validate_version-IsUsable}

-- The version answers the calls of the agent from now on, as it was.
pub record IsLive (v : AgentVersion) (a : Agent) : Type 0 where
  pub pointer : a.published_version_id ≡ some v.id
  pub row : AgentVersion
  pub mem : Memᴰ row a.versions
  pub id : row.id ≡ v.id
  pub config : row.config ≡ v.config
  pub grants : row.grants ≡ v.grants
  pub state : row.state ≡ published

-- A row of the versions that has what a version had.
record Twin (v : AgentVersion) (vs : List AgentVersion) : Type 0 where
  row : AgentVersion
  mem : Memᴰ row vs
  id : row.id ≡ v.id
  config : row.config ≡ v.config
  grants : row.grants ≡ v.grants

archive-Twin : (v : AgentVersion) (vs : List AgentVersion) → Memᴰ (archive v) vs → Twin v vs
archive-Twin v vs m = elim (Bool-cases (is_published v.state)) [
  | inl e ↦ record {
    row = archive v;
    mem = m;
    id = ground (arith, e);
    config = rw e refl;
    grants = rw e refl;
  }
  | inr e ↦ record {
    row = archive v;
    mem = m;
    id = ground (arith, e);
    config = rw e refl;
    grants = rw e refl;
  }
]

update_one-Twin :
    (i : ℕ) (v : AgentVersion) (vs : List AgentVersion)
    → Memᴰ (update_one i archive v) vs
    → Twin v vs
update_one-Twin i v vs m = elim (Bool-cases (v.id == i)) [
  | inl e ↦ archive-Twin v vs (subst (λ b. Memᴰ (if b then archive v else v) vs) e m)
  | inr e ↦ record {
    row = v;
    mem = subst (λ b. Memᴰ (if b then archive v else v) vs) e m;
    id = refl;
    config = refl;
    grants = refl;
  }
]

archive_published-Twin :
    (p : Option ℕ) (v : AgentVersion) (vs : List AgentVersion)
    → Memᴰ v vs
    → Twin v (archive_published p vs)
archive_published-Twin none v vs m = record {
  row = v;
  mem = m;
  id = refl;
  config = refl;
  grants = refl;
}
archive_published-Twin (some i) v vs m =
    update_one-Twin i v (update i archive vs) (update-mem i archive vs m)

put_live-IsLive :
    (now user : ℕ) (change_note : Option Text) (v : AgentVersion) (a : Agent)
    → Memᴰ v a.versions
    → IsLive v (put_live now user change_note v.id a)
unfolding put_live
put_live-IsLive now user change_note v a m =
    let vs = archive_published a.published_version_id a.versions in
    let twin = archive_published-Twin a.published_version_id v a.versions m in
    let mark = mark_published now user change_note in
    let same : (twin.row.id == v.id) ≡ true = (==_iff twin.row.id v.id).1 twin.id in
    let k : Memᴰ (mark twin.row) (update v.id mark vs) =
      subst (λ b. Memᴰ (if b then mark twin.row else twin.row) (update v.id mark vs)) same
        (update-mem v.id mark vs twin.mem) in
    record {
      pointer = refl;
      row = mark twin.row;
      mem = k;
      id = twin.id;
      config = twin.config;
      grants = twin.grants;
      state = refl;
    }

noted-mem :
    (report : List Entry) (v : AgentVersion) (vs : List AgentVersion)
    → Memᴰ v vs
    → Memᴰ (note_errors report v) (update v.id (note_errors report) vs)
noted-mem report v vs m =
    subst (λ b. Memᴰ (if b then note_errors report v else v) (update v.id (note_errors report) vs))
      ((==_iff v.id v.id).1 refl) (update-mem v.id (note_errors report) vs m)

module _ (c : Catalog) (now user : ℕ) where
  pub publish_version_done :
      (change_note : Option Text) (a : Agent) (v : AgentVersion)
      → is_publishable (validate_version c v.config v.grants) ≡ true
      → publish_version c now user change_note a v
        ≡ done (
            put_live now user change_note v.id (record a {
              versions =
                  update v.id (note_errors (validate_version c v.config v.grants)) a.versions;
            }))
  unfolding publish_version
  publish_version_done change_note a v h = rw h refl

  pub publish_version_raised :
      (change_note : Option Text) (a : Agent) (v : AgentVersion)
      → is_publishable (validate_version c v.config v.grants) ≡ false
      → publish_version c now user change_note a v
        ≡ raised not_publishable (record a {
          versions = update v.id (note_errors (validate_version c v.config v.grants)) a.versions;
        })
  unfolding publish_version
  publish_version_raised change_note a v h = rw h refl

  publish_version-IsLive :
      (change_note : Option Text) (a b : Agent) (v : AgentVersion)
      → Memᴰ v a.versions
      → publish_version c now user change_note a v ≡ done b
      → IsUsable c v.config v.grants × IsLive v b
  publish_version-IsLive change_note a b v m h =
      let report = validate_version c v.config v.grants in
      elim (Bool-cases (is_publishable report)) [
        | inr e ↦ absurd (ground (arith, publish_version_raised change_note a v e))
        | inl e ↦
            let noted = record a { versions = update v.id (note_errors report) a.versions } in
            let live =
              put_live-IsLive now user change_note (note_errors report v) noted
                (noted-mem report v a.versions m) in
            let same = ap rows (sym (publish_version_done change_note a v e) ∙ h) in
            let there : IsLive v (put_live now user change_note v.id noted) = record {
              pointer = live.pointer;
              row = live.row;
              mem = live.mem;
              id = live.id;
              config = live.config;
              grants = live.grants;
              state = live.state;
            } in
            ((validate_version-IsUsable c v.config v.grants).0 e, subst (IsLive v) same there)
      ]

  publish_found-IsLive :
      (change_note : Option Text) (a b : Agent) (o : Option AgentVersion)
      → latest is_draft_version a.versions ≡ o
      → publish_found c now user change_note a o ≡ done b
      → (v : AgentVersion) × (o ≡ some v) × IsUsable c v.config v.grants × IsLive v b
  publish_found-IsLive change_note a b none l h = absurd (ground arith)
  publish_found-IsLive change_note a b (some v) l h =
      let m = latest-mem is_draft_version a.versions l in
      let (usable, live) = publish_version-IsLive change_note a b v m h in (v, refl, usable, live)

  -- Where publishing succeeds, the latest draft meets the conditions of the validation then, and it is
  -- what the agent's pointer then names: a published row with the draft's configuration and tools.
  pub publish_agent-IsLive :
      (change_note : Option Text) (a b : Agent)
      → publish_agent c now user change_note a ≡ done b
      → (v : AgentVersion) × (latest is_draft_version a.versions ≡ some v)
        × IsUsable c v.config v.grants
        × IsLive v b
  unfolding publish_agent
  publish_agent-IsLive change_note a b h =
      publish_found-IsLive change_note a b (latest is_draft_version a.versions) refl h

  rollback_found-IsLive :
      (number : ℕ) (a b : Agent) (o : Option AgentVersion)
      → load_version number a.versions ≡ o
      → rollback_found c now user a o ≡ done b
      → (v : AgentVersion) × (o ≡ some v)
        × (is_pointer a.published_version_id v.id ≡ false)
        × IsUsable c v.config v.grants
        × IsLive v b
  unfolding rollback_to
  rollback_found-IsLive number a b none l h = absurd (ground arith)
  rollback_found-IsLive number a b (some v) l h =
      elim (Bool-cases (is_pointer a.published_version_id v.id)) [
        | inl e ↦ absurd (ground (arith, e))
        | inr e ↦ elim (Bool-cases (is_publishable (validate_version c v.config v.grants))) [
          | inr f ↦ absurd (ground (arith, e, f))
          | inl f ↦
              let m = find-mem (λ w. w.version_number == number) a.versions l in
              let same : put_live now user none v.id a ≡ b = ground (arith, e, f) in
              (
                v,
                refl,
                e,
                (validate_version-IsUsable c v.config v.grants).0 f,
                subst (IsLive v) same (put_live-IsLive now user none v a m),
              )
        ]
      ]

  -- Where a rollback succeeds, the version of the number that was asked for was not the published one,
  -- meets the conditions of the validation then, and is what the agent's pointer then names: a
  -- published row with its configuration and tools.
  pub rollback_agent-IsLive :
      (number : ℕ) (a b : Agent)
      → rollback_agent c now user number a ≡ done b
      → (v : AgentVersion) × (load_version number a.versions ≡ some v)
        × (is_pointer a.published_version_id v.id ≡ false)
        × IsUsable c v.config v.grants
        × IsLive v b
  unfolding rollback_agent
  rollback_agent-IsLive number a b h =
      rollback_found-IsLive number a b (load_version number a.versions) refl h
