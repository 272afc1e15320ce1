-- ===== src/Agents/Live.antt =====
-- How many versions of an agent are published.
use live_kit_voice_agent.Prelude.{
  ℕ, ◌+◌, ◌≡◌, refl, ap, sym, ◌∙◌, true, false, not, Option, none, some, List, [], ◌∷◌, ◌==◌,
  if◌then◌else◌, any, is_some, arith, Bool-cases, inl, inr, ==_iff,
}
use live_kit_voice_agent.Prelude.Sorting.{all}
use live_kit_voice_agent.Agents.Versions.{AgentVersion, is_published, Agent}
use live_kit_voice_agent.Agents.Rows.{is_distinct, ids}
use live_kit_voice_agent.Agents.Truthful.{has_id, is_present, is_told, IsTruthful}
use live_kit_voice_agent.Agents.Lifecycle.{Reach, Reach-IsTruthful}

abbrev pub count_published : List AgentVersion → ℕ
count_published [] = 0
count_published (v ∷ vs) = (if is_published v.state then 1 else 0) + count_published vs

count-none : (vs : List AgentVersion) → all (is_told none) vs ≡ true → count_published vs ≡ 0
count-none [] h = refl
count-none (v ∷ vs) h = let rest = count-none vs (ground arith) in ground (arith, rest)

pub absent :
    (i : ℕ) (vs : List AgentVersion)
    → all (λ m. not (m == i)) (ids vs) ≡ true
    → any (has_id i) vs ≡ false
absent i [] h = refl
absent i (v ∷ vs) h = let rest = absent i vs (ground arith) in ground (arith, rest)

count-some :
    (i : ℕ) (vs : List AgentVersion)
    → is_distinct (ids vs) ≡ true
    → all (is_told (some i)) vs ≡ true
    → count_published vs ≡ (if any (has_id i) vs then 1 else 0)
count-some i [] d h = refl
count-some i (v ∷ vs) d h =
    let rest = count-some i vs (ground arith) (ground arith) in
    elim (Bool-cases (v.id == i)) [
      | inr e ↦ ground (arith, rest, e)
      | inl e ↦
          let same = (==_iff v.id i).0 e in
          let others : all (λ m. not (m == v.id)) (ids vs) ≡ true = ground arith in
          let gone = absent v.id vs others in
          let here : any (has_id i) vs ≡ false = ap (λ n. any (has_id n) vs) (sym same) ∙ gone in
          ground (arith, rest, e, here)
    ]

count-present :
    (p : Option ℕ) (vs : List AgentVersion)
    → is_distinct (ids vs) ≡ true
    → all (is_told p) vs ≡ true
    → is_present p vs ≡ true
    → count_published vs ≡ (if is_some p then 1 else 0)
count-present none vs d h k = count-none vs h
count-present (some i) vs d h k = let c = count-some i vs d h in ground (arith, c, k)

count_published-IsTruthful :
    (a : Agent)
    → IsTruthful a
    → count_published a.versions ≡ (if is_some a.published_version_id then 1 else 0)
count_published-IsTruthful a t =
    count-present a.published_version_id a.versions t.ids_distinct t.told t.present

-- Whatever is saved, published and rolled back to, whatever those handlers answer and whatever the
-- catalog is then, an agent has one published version where its pointer names one, which is that
-- version, and none where it names none; if its versions are told apart so at the start.
pub Reach-count_published :
    {a b : Agent}
    → IsTruthful a
    → Reach a b
    → IsTruthful b
      × (count_published b.versions ≡ (if is_some b.published_version_id then 1 else 0))
Reach-count_published t r = let u = Reach-IsTruthful t r in (u, count_published-IsTruthful _ u)
