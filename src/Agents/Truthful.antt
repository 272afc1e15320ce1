-- ===== src/Agents/Truthful.antt =====
-- That the states of an agent's versions and its pointer agree, after every operation of
-- services/configuration-api/app/api/v1/agents.py on them.
use live_kit_voice_agent.Prelude.{
  ℕ, ◌≡◌, refl, ap, Bool, true, false, not, Option, none, some, List, [], ◌∷◌, map, ◌==◌, any, Memᴰ,
  arith, Bool-cases, inl, inr,
}
use live_kit_voice_agent.Prelude.Sorting.{all}
use live_kit_voice_agent.Prelude.Text.{Text}
use live_kit_voice_agent.Agents.Versions.{AgentVersion, is_published, Agent, update}
use live_kit_voice_agent.Agents.Publishing.{
  archive, archive_published, mark_published, put_live, is_pointer,
}
use live_kit_voice_agent.Agents.Rows.{is_distinct, ids, numbers, update_one, update-map, update-all}

abbrev pub same : Bool → Bool → Bool
same true b = b
same false b = not b

-- The version is published exactly if the pointer names it.
abbrev pub is_told : Option ℕ → AgentVersion → Bool
is_told p v = same (is_published v.state) (is_pointer p v.id)

abbrev pub has_id : ℕ → AgentVersion → Bool
has_id i v = v.id == i

abbrev pub is_present : Option ℕ → List AgentVersion → Bool
is_present none vs = true
is_present (some i) vs = any (has_id i) vs

-- The versions are told apart by their identifiers and by their numbers, the one that the pointer
-- names exists, and it is the published one.
pub record IsTruthful (a : Agent) : Type 0 where
  pub ids_distinct : is_distinct (ids a.versions) ≡ true
  pub numbers_distinct : is_distinct (numbers a.versions) ≡ true
  pub told : all (is_told a.published_version_id) a.versions ≡ true
  pub present : is_present a.published_version_id a.versions ≡ true

pub mem-has_id :
    (vs : List AgentVersion) {v : AgentVersion} → Memᴰ v vs → any (has_id v.id) vs ≡ true
mem-has_id [] m = elim m [ ]
mem-has_id (w ∷ vs) {v} (Memᴰ.head e) = let same = ap (λ t. t.id) e in ground (arith, same)
mem-has_id (w ∷ vs) (Memᴰ.tail m) = ground (arith, mem-has_id vs m)

abbrev pub is_not_published : AgentVersion → Bool
is_not_published v = not (is_published v.state)

pub any-update :
    (i j : ℕ) (f : AgentVersion → AgentVersion) (vs : List AgentVersion)
    → ((v : AgentVersion) → (f v).id ≡ v.id)
    → any (has_id i) (update j f vs) ≡ any (has_id i) vs
unfolding update
any-update i j f [] h = refl
any-update i j f (v ∷ vs) h =
    let here = h v in let rest = any-update i j f vs h in ground (arith, here, rest)

is_present-update :
    (p : Option ℕ) (j : ℕ) (f : AgentVersion → AgentVersion) (vs : List AgentVersion)
    → ((v : AgentVersion) → (f v).id ≡ v.id)
    → is_present p (update j f vs) ≡ is_present p vs
is_present-update none j f vs h = refl
is_present-update (some i) j f vs h = any-update i j f vs h

-- An update that keeps the identifier, the number and the state of a version.
pub update-IsTruthful :
    (a : Agent) (i : ℕ) (f : AgentVersion → AgentVersion)
    → ((v : AgentVersion) → (f v).id ≡ v.id)
    → ((v : AgentVersion) → (f v).version_number ≡ v.version_number)
    → ((v : AgentVersion) → (f v).state ≡ v.state)
    → IsTruthful a
    → IsTruthful (record a { versions = update i f a.versions })
update-IsTruthful a i f hi hn hs t =
    let p = a.published_version_id in
    let kept : (v : AgentVersion) → is_told p v ≡ true → is_told p (update_one i f v) ≡ true =
      λ v k. (let x = hi v in let y = hs v in ground (arith, x, y)) in
    record {
      ids_distinct = rw (update-map (λ v. v.id) i f a.versions hi) t.ids_distinct;
      numbers_distinct =
          rw (update-map (λ v. v.version_number) i f a.versions hn) t.numbers_distinct;
      told = update-all (is_told p) (is_told p) i f a.versions kept t.told;
      present = rw (is_present-update p i f a.versions hi) t.present;
    }

archive-id : (v : AgentVersion) → (archive v).id ≡ v.id
archive-id v = elim (Bool-cases (is_published v.state)) [
  | inl e ↦ ground (arith, e)
  | inr e ↦ ground (arith, e)
]

archive-version_number : (v : AgentVersion) → (archive v).version_number ≡ v.version_number
archive-version_number v = elim (Bool-cases (is_published v.state)) [
  | inl e ↦ ground (arith, e)
  | inr e ↦ ground (arith, e)
]

archive_published-map :
    {A : Type 0} (g : AgentVersion → A) (p : Option ℕ) (vs : List AgentVersion)
    → ((v : AgentVersion) → g (archive v) ≡ g v)
    → map g (archive_published p vs) ≡ map g vs
archive_published-map g none vs h = refl
archive_published-map g (some i) vs h = update-map g i archive vs h

-- Once the pointer's version is archived, none is published.
archive_published-all :
    (p : Option ℕ) (vs : List AgentVersion)
    → all (is_told p) vs ≡ true
    → all is_not_published (archive_published p vs) ≡ true
archive_published-all none [] h = refl
archive_published-all none (v ∷ vs) h =
    let rest = archive_published-all none vs (ground arith) in ground (arith, rest)
archive_published-all (some i) vs h =
    update-all (is_told (some i)) is_not_published i archive vs (λ v k. ground arith) h

any-archive_published :
    (i : ℕ) (p : Option ℕ) (vs : List AgentVersion)
    → any (has_id i) (archive_published p vs) ≡ any (has_id i) vs
any-archive_published i none vs = refl
any-archive_published i (some j) vs = any-update i j archive vs archive-id

pub put_live-IsTruthful :
    (now user : ℕ) (change_note : Option Text) (i : ℕ) (a : Agent)
    → any (has_id i) a.versions ≡ true
    → IsTruthful a
    → IsTruthful (put_live now user change_note i a)
unfolding put_live
put_live-IsTruthful now user change_note i a h t =
    let p = a.published_version_id in
    let mark = mark_published now user change_note in
    let vs = archive_published p a.versions in
    record {
      ids_distinct =
          rw
            (
              update-map (λ v. v.id) i mark vs (λ v. refl),
              archive_published-map (λ v. v.id) p a.versions archive-id,
            )
            t.ids_distinct;
      numbers_distinct =
          rw
            (
              update-map (λ v. v.version_number) i mark vs (λ v. refl),
              archive_published-map (λ v. v.version_number) p a.versions archive-version_number,
            )
            t.numbers_distinct;
      told =
          update-all is_not_published (is_told (some i)) i mark vs (λ v k. ground arith)
            (archive_published-all p a.versions t.told);
      present = rw (any-update i i mark vs (λ v. refl), any-archive_published i p a.versions) h;
    }
