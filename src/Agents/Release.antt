-- ===== src/Agents/Release.antt =====
-- What a call sees of an agent: the configuration that the pointer names. The handlers on the versions
-- refine a machine that either keeps it or replaces it by one that passes the validation.
use mathlib.Core.Path.{subst}
use live_kit_voice_agent.Prelude.{
  ℕ, ◌≡◌, refl, ap, sym, ◌∙◌, true, false, Option, none, some, List, [], ◌∷◌, ◌==◌, any, find, Memᴰ,
  arith, Bool-cases, Option-cases, inl, inr, ==_iff,
}
use live_kit_voice_agent.Prelude.Finding.{find-mem, find-passes, find-is_some}
use live_kit_voice_agent.Prelude.Sorting.{all, all-mem}
use live_kit_voice_agent.Prelude.Text.{Text}
use live_kit_voice_agent.Agents.Catalog.{Catalog, Config, Grant, Change}
use live_kit_voice_agent.Agents.Validation.{validate_references}
use live_kit_voice_agent.Agents.Versions.{
  AgentVersion, AgentVersionState, draft, testing, published, archived, is_draft, is_published,
  Agent, Error, Result, done, raised, rows,
}
use live_kit_voice_agent.Agents.Saving.{save_draft}
use live_kit_voice_agent.Agents.Publishing.{
  publish_agent, rollback_agent, rollback_found, rollback_to, load_version,
}
use live_kit_voice_agent.Agents.Truthful.{has_id, is_present, is_told, IsTruthful}
use live_kit_voice_agent.Agents.Lifecycle.{Step, saves, publishes, rolls_back, Step-IsTruthful}
use live_kit_voice_agent.Agents.Frozen.{Step-IsIn}
use live_kit_voice_agent.Agents.Distinct.{distinct-mem}
use live_kit_voice_agent.Agents.Usable.{IsUsable}
use live_kit_voice_agent.Agents.Publication.{IsLive, publish_agent-IsLive, rollback_agent-IsLive}
use live_kit_voice_agent.Agents.Refusals.{publish_agent-IsUntouched}

-- A configuration with the tools that are granted.
pub record Setup : Type 0 where
  pub config : Config
  pub grants : List Grant

abbrev pub setup : AgentVersion → Setup
setup v = record { config = v.config; grants = v.grants }

abbrev pub setup_of : Option AgentVersion → Option Setup
setup_of none = none
setup_of (some v) = some (setup v)

-- What the worker loads for a call to the agent, by the pointer alone.
abbrev pub live_of : Option ℕ → List AgentVersion → Option Setup
live_of none vs = none
live_of (some i) vs = setup_of (find (has_id i) vs)

abbrev pub live : Agent → Option Setup
live a = live_of a.published_version_id a.versions

-- What a handler does to the abstract machine, whose state is what a call sees: a release changes the
-- state, by the catalog that the handler reads, and everything else keeps it.
pub data Event : Type 0 where
  keeps : Event
  releases : Catalog → Event

abbrev pub event_of_result : Catalog → Result Agent → Event
event_of_result c (done b) = releases c
event_of_result c (raised e b) = keeps

-- A save keeps the state, and so do a publication and a rollback that are refused.
pub event_of : {a b : Agent} → Step a b → Event
unfolding publish_agent rollback_agent
event_of (saves c i changes tools h) = keeps
event_of (publishes c now user change_note {a}) =
    event_of_result c (publish_agent c now user change_note a)
event_of (rolls_back c now user number {a}) = event_of_result c (rollback_agent c now user number a)

-- The moves of the machine.
abbrev pub IsRelease : Event → Option Setup → Option Setup → Type 0
IsRelease keeps x y = y ≡ x
IsRelease (releases c) x y = (s : Setup) × IsUsable c s.config s.grants × (y ≡ some s)

live_row :
    (i : ℕ) (b : Agent) (v : AgentVersion)
    → IsTruthful b
    → b.published_version_id ≡ some i
    → Memᴰ v b.versions
    → v.id ≡ i
    → live b ≡ some (setup v)
live_row i b v t p m e = elim (Option-cases (find (has_id i) b.versions)) [
  | inl f ↦
      let k = find-is_some (has_id i) b.versions m ((==_iff v.id i).1 e) in
      absurd (ground (arith, f, k))
  | inr (w, f) ↦
      let n = find-mem (has_id i) b.versions f in
      let same_id = (==_iff w.id i).0 (find-passes (has_id i) b.versions f) in
      let same_row = distinct-mem b.versions t.ids_distinct n m (same_id ∙ sym e) in
      ap (λ o. live_of o b.versions) p ∙ (ap setup_of f ∙ ap (λ x. some (setup x)) same_row)
]

present-find :
    (i : ℕ) (vs : List AgentVersion)
    → any (has_id i) vs ≡ true
    → (v : AgentVersion) × Memᴰ v vs × (v.id ≡ i)
present-find i [] h = absurd (ground arith)
present-find i (v ∷ vs) h = elim (Bool-cases (v.id == i)) [
  | inl e ↦ (v, Memᴰ.head refl, (==_iff v.id i).0 e)
  | inr e ↦ let (w, m, k) = present-find i vs (ground (arith, e)) in (w, Memᴰ.tail m, k)
]

published-draft : (s : AgentVersionState) → is_published s ≡ true → is_draft s ≡ false
published-draft draft h = absurd (ground arith)
published-draft testing h = refl
published-draft published h = refl
published-draft archived h = refl

setup_eq : (v w : AgentVersion) → w.config ≡ v.config → w.grants ≡ v.grants → setup w ≡ setup v
setup_eq v w c g =
    ap (λ x. record { config = x; grants = w.grants }) c
    ∙ ap (λ x. record { config = v.config; grants = x }) g

-- The version that the pointer names is no draft.
told-draft :
    (i : ℕ) (v : AgentVersion) → is_told (some i) v ≡ true → v.id ≡ i → is_draft v.state ≡ false
told-draft i v h e = let k = (==_iff v.id i).1 e in published-draft v.state (ground (arith, h, k))

live-Step :
    (o : Option ℕ) {a b : Agent}
    → IsTruthful a
    → Step a b
    → a.published_version_id ≡ o
    → b.published_version_id ≡ o
    → live b ≡ live a
live-Step none {a} {b} t s p q =
    ap (λ o. live_of o b.versions) q ∙ sym (ap (λ o. live_of o a.versions) p)
live-Step (some i) {a} {b} t s p q =
    let there = ap (λ o. is_present o a.versions) (sym p) ∙ t.present in
    let (v, m, e) = present-find i a.versions there in
    let told =
      all-mem (is_told (some i)) a.versions (ap (λ o. all (is_told o) a.versions) (sym p) ∙ t.told)
        m in
    let later = Step-IsIn t s m (told-draft i v told e) in
    let before = live_row i a v t p m e in
    let after = live_row i b later.row (Step-IsTruthful s t) q later.mem (later.kept.id ∙ e) in
    let config = later.kept.config in
    let grants = later.kept.grants in
    after ∙ (ap some (setup_eq v later.row later.kept.config later.kept.grants) ∙ sym before)

save_draft-pointer :
    (c : Catalog) (i : ℕ) (changes : List Change) (tools : Option (List ℕ)) (a : Agent)
    → (rows (save_draft c i changes tools a)).published_version_id ≡ a.published_version_id
unfolding save_draft
save_draft-pointer c i changes tools a = elim (Bool-cases (validate_references c changes tools)) [
  | inl e ↦ rw e refl
  | inr e ↦ rw e refl
]

live-IsLive : (b : Agent) (v : AgentVersion) → IsTruthful b → IsLive v b → live b ≡ some (setup v)
live-IsLive b v t l =
    live_row v.id b l.row t l.pointer l.mem l.id ∙ ap some (setup_eq v l.row l.config l.grants)

module _ (a : Agent) (t : IsTruthful a) where
  released :
      (c : Catalog) (b : Agent) (v : AgentVersion)
      → Step a b
      → IsUsable c v.config v.grants
      → IsLive v b
      → IsRelease (releases c) (live a) (live b)
  released c b v s u l = (setup v, u, live-IsLive b v (Step-IsTruthful s t) l)

  publish-IsRelease :
      (c : Catalog) (now user : ℕ) (change_note : Option Text) (r : Result Agent)
      → publish_agent c now user change_note a ≡ r
      → IsRelease (event_of_result c r) (live a) (live (rows r))
  publish-IsRelease c now user change_note (raised e b) h =
      let kept = publish_agent-IsUntouched c now user change_note a b e h in
      let s : Step a b = subst (Step a) (ap rows h) (publishes c now user change_note) in
      live-Step a.published_version_id t s refl kept.pointer
  publish-IsRelease c now user change_note (done b) h =
      let (v, l, u, w) = publish_agent-IsLive c now user change_note a b h in
      let s : Step a b = subst (Step a) (ap rows h) (publishes c now user change_note) in
      released c b v s u w

  rollback_raised :
      (c : Catalog) (now user number : ℕ) (o : Option AgentVersion) (e : Error) (b : Agent)
      → rollback_found c now user a o ≡ raised e b
      → b ≡ a
  unfolding rollback_to
  rollback_raised c now user number none e b h = sym (ap rows h)
  rollback_raised c now user number (some v) e b h = ground arith

  rollback-IsRelease :
      (c : Catalog) (now user number : ℕ) (r : Result Agent)
      → rollback_agent c now user number a ≡ r
      → IsRelease (event_of_result c r) (live a) (live (rows r))
  unfolding rollback_agent
  rollback-IsRelease c now user number (raised e b) h =
      let k = rollback_raised c now user number (load_version number a.versions) e b h in ap live k
  rollback-IsRelease c now user number (done b) h =
      let (v, l, p, u, w) = rollback_agent-IsLive c now user number a b h in
      let s : Step a b = subst (Step a) (ap rows h) (rolls_back c now user number) in
      released c b v s u w

-- What a call sees of an agent, which is the configuration and the tools that the pointer names, is kept
-- by every save and by every publication and rollback that is refused, and a publication or rollback
-- that succeeds replaces it by one that passes the validation's conditions in the catalog that this
-- handler reads; where the identifiers and the numbers of the versions differ and the states are those
-- that the pointer tells.
pub Step-IsRelease :
    {a b : Agent} → IsTruthful a → (s : Step a b) → IsRelease (event_of s) (live a) (live b)
unfolding event_of
Step-IsRelease t (saves c i changes tools {a} h) =
    live-Step a.published_version_id t (saves c i changes tools h) refl
      (save_draft-pointer c i changes tools a)
Step-IsRelease t (publishes c now user change_note {a}) =
    publish-IsRelease a t c now user change_note (publish_agent c now user change_note a) refl
Step-IsRelease t (rolls_back c now user number {a}) =
    rollback-IsRelease a t c now user number (rollback_agent c now user number a) refl
