-- ===== src/Agents/Lifecycle.antt =====
-- The operations on an agent's versions as steps, and what every sequence of them keeps.
use live_kit_voice_agent.Prelude.{
  ℕ, ◌+◌, ◌≡◌, refl, ap, sym, ◌∙◌, Bool, true, false, not, Option, none, some, List, [], ◌∷◌, ◌==◌,
  any, arith, Bool-cases, inl, inr,
}
use live_kit_voice_agent.Prelude.Sorting.{all}
use live_kit_voice_agent.Prelude.Text.{Text}
use live_kit_voice_agent.Prelude.Finding.{find-mem}
use live_kit_voice_agent.Agents.Catalog.{Catalog, Change}
use live_kit_voice_agent.Agents.Validation.{validate_references, validate_version, is_publishable}
use live_kit_voice_agent.Agents.Versions.{
  AgentVersion, is_published, is_draft, Agent, rows, latest, any_version, is_draft_version, update,
}
use live_kit_voice_agent.Agents.Saving.{
  next_draft, reuse_or_add, editable_draft, write_draft, save_into, save_draft,
}
use live_kit_voice_agent.Agents.Publishing.{
  note_errors, publish_version, publish_agent, publish_found, rollback_found, is_pointer,
  rollback_to, load_version, rollback_agent,
}
use live_kit_voice_agent.Agents.Rows.{ids, numbers, latest-mem, latest-all, latest_empty, up_to}
use live_kit_voice_agent.Agents.Truthful.{
  has_id, is_present, IsTruthful, any-update, mem-has_id, update-IsTruthful, put_live-IsTruthful,
}

-- A handler that ran, whatever it answered. The database gives a new row an identifier that no row
-- has; the catalog may be another one at each step.
pub data Step : Agent → Agent → Type 0 where
  saves :
      (c : Catalog) (i : ℕ) (changes : List Change) (tools : Option (List ℕ)) {a : Agent}
      → any (has_id i) a.versions ≡ false
      → Step a (rows (save_draft c i changes tools a))
  publishes :
      (c : Catalog) (now user : ℕ) (change_note : Option Text) {a : Agent}
      → Step a (rows (publish_agent c now user change_note a))
  rolls_back :
      (c : Catalog) (now user number : ℕ) {a : Agent}
      → Step a (rows (rollback_agent c now user number a))

pub data Reach (a : Agent) : Agent → Type 0 where
  here : Reach a a
  next : {b c : Agent} → Reach a b → Step b c → Reach a c

fresh-all :
    (i : ℕ) (vs : List AgentVersion)
    → any (has_id i) vs ≡ false
    → all (λ m. not (m == i)) (ids vs) ≡ true
fresh-all i [] h = refl
fresh-all i (v ∷ vs) h = let rest = fresh-all i vs (ground arith) in ground (arith, rest)

above-all :
    (n : ℕ) (vs : List AgentVersion)
    → all (up_to n) vs ≡ true
    → all (λ m. not (m == n + 1)) (numbers vs) ≡ true
above-all n [] h = refl
above-all n (v ∷ vs) h = let rest = above-all n vs (ground arith) in ground (arith, rest)

is_present-cons :
    (p : Option ℕ) (v : AgentVersion) (vs : List AgentVersion)
    → is_present p vs ≡ true
    → is_present p (v ∷ vs) ≡ true
is_present-cons none v vs h = refl
is_present-cons (some i) v vs h = ground arith

is_pointer-fresh :
    (p : Option ℕ) (i : ℕ) (vs : List AgentVersion)
    → is_present p vs ≡ true
    → any (has_id i) vs ≡ false
    → is_pointer p i ≡ false
is_pointer-fresh none i vs h k = refl
is_pointer-fresh (some j) i vs h k = elim (Bool-cases (i == j)) [
  | inr e ↦ e
  | inl e ↦
      let same : i ≡ j = ground (arith, e) in
      let other : any (has_id j) vs ≡ false = ap (λ n. any (has_id n) vs) (sym same) ∙ k in
      absurd (ground (arith, h, other))
]

add_draft-IsTruthful :
    (a : Agent) (d : AgentVersion)
    → any (has_id d.id) a.versions ≡ false
    → is_published d.state ≡ false
    → all (λ m. not (m == d.version_number)) (numbers a.versions) ≡ true
    → IsTruthful a
    → IsTruthful (record a { versions = d ∷ a.versions })
add_draft-IsTruthful a d h s n t =
    let p = a.published_version_id in
    let other = is_pointer-fresh p d.id a.versions t.present h in
    let fresh = fresh-all d.id a.versions h in
    let distinct = t.ids_distinct in
    let numbered = t.numbers_distinct in
    let told = t.told in
    record {
      ids_distinct = ground (arith, fresh, distinct);
      numbers_distinct = ground (arith, n, numbered);
      told = ground (arith, other, told, s);
      present = is_present-cons p d a.versions t.present;
    }

-- What `_editable_draft` leaves in the rows.
pub reuse_or_add-IsTruthful :
    (i : ℕ) (a : Agent) (o : Option AgentVersion)
    → latest any_version a.versions ≡ o
    → any (has_id i) a.versions ≡ false
    → IsTruthful a
    → IsTruthful (record a { versions = (reuse_or_add i a.versions o).0 })
reuse_or_add-IsTruthful i a none l h t =
    let empty = latest_empty a.versions l in
    add_draft-IsTruthful a (next_draft i none) h refl
      (ap (λ vs. all (λ m. not (m == 1)) (numbers vs)) empty) t
reuse_or_add-IsTruthful i a (some v) l h t = elim (Bool-cases (is_draft v.state)) [
  | inl e ↦ rw e t
  | inr e ↦ rw e (
      add_draft-IsTruthful a (next_draft i (some v)) h refl
        (above-all v.version_number a.versions (latest-all a.versions l)) t)
]

write_draft_id :
    (c : Catalog) (changes : List Change) (tools : Option (List ℕ)) (v : AgentVersion)
    → (write_draft c changes tools v).id ≡ v.id
unfolding write_draft
write_draft_id c changes tools v = refl

write_draft-version_number :
    (c : Catalog) (changes : List Change) (tools : Option (List ℕ)) (v : AgentVersion)
    → (write_draft c changes tools v).version_number ≡ v.version_number
unfolding write_draft
write_draft-version_number c changes tools v = refl

write_draft_state :
    (c : Catalog) (changes : List Change) (tools : Option (List ℕ)) (v : AgentVersion)
    → (write_draft c changes tools v).state ≡ v.state
unfolding write_draft
write_draft_state c changes tools v = refl

module _ (c : Catalog) (changes : List Change) (tools : Option (List ℕ)) where
  write-IsTruthful :
      (a : Agent) (j : ℕ)
      → IsTruthful a
      → IsTruthful (record a { versions = update j (write_draft c changes tools) a.versions })
  write-IsTruthful a j =
      update-IsTruthful a j (write_draft c changes tools) (write_draft_id c changes tools)
        (write_draft-version_number c changes tools) (write_draft_state c changes tools)

  save_into-IsTruthful :
      (i : ℕ) (a : Agent)
      → any (has_id i) a.versions ≡ false
      → IsTruthful a
      → IsTruthful (save_into c changes tools a (editable_draft i a.versions))
  unfolding editable_draft
  save_into-IsTruthful i a h t =
      let o = latest any_version a.versions in
      let found = reuse_or_add i a.versions o in
      write-IsTruthful (record a { versions = found.0 }) found.1.id
        (reuse_or_add-IsTruthful i a o refl h t)

  save_draft-IsTruthful :
      (i : ℕ) (a : Agent)
      → any (has_id i) a.versions ≡ false
      → IsTruthful a
      → IsTruthful (rows (save_draft c i changes tools a))
  unfolding save_draft
  save_draft-IsTruthful i a h t = elim (Bool-cases (validate_references c changes tools)) [
    | inr e ↦ rw e t
    | inl e ↦ rw e (save_into-IsTruthful i a h t)
  ]

latest-has_id :
    (test : AgentVersion → Bool) (vs : List AgentVersion) (v : AgentVersion)
    → latest test vs ≡ some v
    → any (has_id v.id) vs ≡ true
latest-has_id test vs v h = mem-has_id vs (latest-mem test vs h)

module _ (c : Catalog) (now user : ℕ) where
  publish_version-IsTruthful :
      (change_note : Option Text) (a : Agent) (v : AgentVersion)
      → any (has_id v.id) a.versions ≡ true
      → IsTruthful a
      → IsTruthful (rows (publish_version c now user change_note a v))
  unfolding publish_version
  publish_version-IsTruthful change_note a v h t =
      let report = validate_version c v.config v.grants in
      let noted = record a { versions = update v.id (note_errors report) a.versions } in
      let n : IsTruthful noted =
        update-IsTruthful a v.id (note_errors report) (λ w. refl) (λ w. refl) (λ w. refl) t in
      elim (Bool-cases (is_publishable report)) [
        | inr e ↦ rw e n
        | inl e ↦
            let k = any-update v.id v.id (note_errors report) a.versions (λ w. refl) ∙ h in
            rw e (put_live-IsTruthful now user change_note v.id noted k n)
      ]

  publish_found-IsTruthful :
      (change_note : Option Text) (a : Agent) (o : Option AgentVersion)
      → latest is_draft_version a.versions ≡ o
      → IsTruthful a
      → IsTruthful (rows (publish_found c now user change_note a o))
  publish_found-IsTruthful change_note a none e t = t
  publish_found-IsTruthful change_note a (some v) e t =
      publish_version-IsTruthful change_note a v (latest-has_id is_draft_version a.versions v e) t

  rollback_to-IsTruthful :
      (a : Agent) (v : AgentVersion)
      → any (has_id v.id) a.versions ≡ true
      → IsTruthful a
      → IsTruthful (rows (rollback_to c now user a v))
  unfolding rollback_to
  rollback_to-IsTruthful a v h t = elim (Bool-cases (is_pointer a.published_version_id v.id)) [
    | inl e ↦ rw e t
    | inr e ↦ elim (Bool-cases (is_publishable (validate_version c v.config v.grants))) [
      | inr f ↦ rw (e, f) t
      | inl f ↦ rw (e, f) (put_live-IsTruthful now user none v.id a h t)
    ]
  ]

  rollback_found-IsTruthful :
      (number : ℕ) (a : Agent) (o : Option AgentVersion)
      → load_version number a.versions ≡ o
      → IsTruthful a
      → IsTruthful (rows (rollback_found c now user a o))
  rollback_found-IsTruthful number a none e t = t
  rollback_found-IsTruthful number a (some v) e t =
      let m = find-mem (λ w. w.version_number == number) a.versions e in
      rollback_to-IsTruthful a v (mem-has_id a.versions m) t

pub Step-IsTruthful : {a b : Agent} → Step a b → IsTruthful a → IsTruthful b
unfolding publish_agent rollback_agent
Step-IsTruthful (saves c i changes tools {a} h) t = save_draft-IsTruthful c changes tools i a h t
Step-IsTruthful (publishes c now user change_note {a}) t =
    publish_found-IsTruthful c now user change_note a (latest is_draft_version a.versions) refl t
Step-IsTruthful (rolls_back c now user number {a}) t =
    rollback_found-IsTruthful c now user number a (load_version number a.versions) refl t

pub Reach-IsTruthful : {a b : Agent} → IsTruthful a → Reach a b → IsTruthful b
Reach-IsTruthful t here = t
Reach-IsTruthful t (next r s) = Step-IsTruthful s (Reach-IsTruthful t r)
