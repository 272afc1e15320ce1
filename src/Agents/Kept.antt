-- ===== src/Agents/Kept.antt =====
-- What a version keeps once it is no draft, and that updates of the rows and publication leave it.
use live_kit_voice_agent.Prelude.{
  ℕ, ◌≡◌, refl, ap, ◌∙◌, false, Option, none, some, List, ◌==◌, if◌then◌else◌, Memᴰ, Bool-cases,
  inl, inr,
}
use mathlib.Core.Path.{subst}
use live_kit_voice_agent.Prelude.Text.{Text}
use live_kit_voice_agent.Agents.Versions.{AgentVersion, is_draft, is_published, Agent, update}
use live_kit_voice_agent.Agents.Publishing.{archive, archive_published, mark_published, put_live}
use live_kit_voice_agent.Agents.Rows.{update_one, update-mem}

-- The second is the first, later: its state may be another one, but it is no draft.
pub record IsKept (v w : AgentVersion) : Type 0 where
  pub id : w.id ≡ v.id
  pub version_number : w.version_number ≡ v.version_number
  pub config : w.config ≡ v.config
  pub grants : w.grants ≡ v.grants
  pub state : is_draft w.state ≡ false

-- The version is in the list, in the state that it has by then.
pub record IsIn (v : AgentVersion) (vs : List AgentVersion) : Type 0 where
  pub row : AgentVersion
  pub mem : Memᴰ row vs
  pub kept : IsKept v row

IsKept-refl : (v : AgentVersion) → is_draft v.state ≡ false → IsKept v v
IsKept-refl v h = record {
  id = refl;
  version_number = refl;
  config = refl;
  grants = refl;
  state = h;
}

pub IsKept-trans : {u v w : AgentVersion} → IsKept u v → IsKept v w → IsKept u w
IsKept-trans h k = record {
  id = k.id ∙ h.id;
  version_number = k.version_number ∙ h.version_number;
  config = k.config ∙ h.config;
  grants = k.grants ∙ h.grants;
  state = k.state;
}

pub IsIn-here :
    (v : AgentVersion) (vs : List AgentVersion) → is_draft v.state ≡ false → Memᴰ v vs → IsIn v vs
IsIn-here v vs h m = record { row = v; mem = m; kept = IsKept-refl v h }

pub IsIn-update :
    (i : ℕ) (f : AgentVersion → AgentVersion) (vs : List AgentVersion) {v : AgentVersion}
    → ((w : AgentVersion) → is_draft w.state ≡ false → IsKept w (f w))
    → IsIn v vs
    → IsIn v (update i f vs)
IsIn-update i f vs {v} h p = record {
  row = update_one i f p.row;
  mem = update-mem i f vs p.mem;
  kept = elim (Bool-cases (p.row.id == i)) [
    | inl e ↦ rw e (IsKept-trans p.kept (h p.row p.kept.state))
    | inr e ↦ rw e p.kept
  ];
}

-- An update of another version.
pub IsIn-other :
    (i : ℕ) (f : AgentVersion → AgentVersion) (vs : List AgentVersion) {v : AgentVersion}
    → (v.id == i) ≡ false
    → IsIn v vs
    → IsIn v (update i f vs)
IsIn-other i f vs {v} h p = record {
  row = p.row;
  mem =
      let same = p.kept.id in
      let other : (p.row.id == i) ≡ false = ap (λ n. n == i) same ∙ h in
      let e : update_one i f p.row ≡ p.row = ap (λ b. if b then f p.row else p.row) other in
      subst (λ w. Memᴰ w (update i f vs)) e (update-mem i f vs p.mem);
  kept = p.kept;
}

archive-IsKept : (w : AgentVersion) → is_draft w.state ≡ false → IsKept w (archive w)
archive-IsKept w h = elim (Bool-cases (is_published w.state)) [
  | inr e ↦ rw e (IsKept-refl w h)
  | inl e ↦
      rw e (record { id = refl; version_number = refl; config = refl; grants = refl; state = refl })
]

IsIn-archive_published :
    (p : Option ℕ) (vs : List AgentVersion) {v : AgentVersion}
    → IsIn v vs
    → IsIn v (archive_published p vs)
IsIn-archive_published none vs h = h
IsIn-archive_published (some i) vs h = IsIn-update i archive vs archive-IsKept h

mark_published-IsKept :
    (now user : ℕ) (change_note : Option Text) (w : AgentVersion)
    → IsKept w (mark_published now user change_note w)
mark_published-IsKept now user change_note w = record {
  id = refl;
  version_number = refl;
  config = refl;
  grants = refl;
  state = refl;
}

pub IsIn-put_live :
    (now user : ℕ) (change_note : Option Text) (i : ℕ) (a : Agent) {v : AgentVersion}
    → IsIn v a.versions
    → IsIn v (put_live now user change_note i a).versions
unfolding put_live
IsIn-put_live now user change_note i a h =
    IsIn-update i (mark_published now user change_note)
      (archive_published a.published_version_id a.versions)
      (λ w k. mark_published-IsKept now user change_note w)
      (IsIn-archive_published a.published_version_id a.versions h)
