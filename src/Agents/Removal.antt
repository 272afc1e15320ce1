-- ===== src/Agents/Removal.antt =====
-- What the removal of an agent keeps of the agents that stay.
use live_kit_voice_agent.Prelude.{
  ℕ, ◌≡◌, refl, Bool, true, false, not, List, [], ◌∷◌, map, ◌==◌, any, arith, Bool-cases,
  Option-cases, inl, inr, All,
}
use live_kit_voice_agent.Prelude.Sorting.{all}
use live_kit_voice_agent.Prelude.Text.{Text}
use live_kit_voice_agent.Agents.Versions.{Agent}
use live_kit_voice_agent.Agents.Rows.{is_distinct}
use live_kit_voice_agent.Agents.Truthful.{IsTruthful}
use live_kit_voice_agent.Agents.Directory.{PhoneNumber, is_named, is_agent, routes_to, remove_agent}
use live_kit_voice_agent.Agents.Replacement.{distinct_names, is_answered}

remove-all :
    (p : ℕ → Bool) (i : ℕ) (agents : List Agent)
    → all p (map (λ a. a.id) agents) ≡ true
    → all p (map (λ a. a.id) (remove_agent i agents)) ≡ true
remove-all p i [] h = refl
remove-all p i (a ∷ agents) h =
    let rest = remove-all p i agents (ground arith) in ground (arith, rest)

pub remove_ids :
    (i : ℕ) (agents : List Agent)
    → is_distinct (map (λ a. a.id) agents) ≡ true
    → is_distinct (map (λ a. a.id) (remove_agent i agents)) ≡ true
remove_ids i [] h = refl
remove_ids i (a ∷ agents) h =
    let rest = remove_ids i agents (ground arith) in
    let others = remove-all (λ m. not (m == a.id)) i agents (ground arith) in
    ground (arith, rest, others)

remove_named :
    (i : ℕ) (t : Text) (agents : List Agent)
    → any (is_named t) agents ≡ false
    → any (is_named t) (remove_agent i agents) ≡ false
remove_named i t [] h = refl
remove_named i t (a ∷ agents) h =
    let rest = remove_named i t agents (ground arith) in ground (arith, rest)

pub remove_names :
    (i : ℕ) (agents : List Agent)
    → distinct_names agents ≡ true
    → distinct_names (remove_agent i agents) ≡ true
remove_names i [] h = refl
remove_names i (a ∷ agents) h =
    let rest = remove_names i agents (ground arith) in
    let others = remove_named i a.name agents (ground arith) in ground (arith, rest, others)

remove_others :
    (i j : ℕ) (agents : List Agent)
    → (j == i) ≡ false
    → any (is_agent j) (remove_agent i agents) ≡ any (is_agent j) agents
remove_others i j [] h = refl
remove_others i j (a ∷ agents) h = let rest = remove_others i j agents h in ground (arith, rest)

pub remove_answered :
    (i : ℕ) (agents : List Agent) (ns : List PhoneNumber)
    → any (routes_to i) ns ≡ false
    → all (is_answered agents) ns ≡ true
    → all (is_answered (remove_agent i agents)) ns ≡ true
remove_answered i agents [] h k = refl
remove_answered i agents (n ∷ ns) h k =
    let rest = remove_answered i agents ns (ground arith) (ground arith) in
    elim (Option-cases n.inbound_agent_id) [
      | inl f ↦ ground (arith, f, rest)
      | inr (j, f) ↦
          let kept = remove_others i j agents (ground (arith, f)) in ground (arith, f, rest, kept)
    ]

pub remove-IsTruthful :
    (i : ℕ) (agents : List Agent) → All IsTruthful agents → All IsTruthful (remove_agent i agents)
remove-IsTruthful i [] h = h
remove-IsTruthful i (a ∷ agents) h = elim (Bool-cases (a.id == i)) [
  | inl e ↦ rw e (remove-IsTruthful i agents h.1)
  | inr e ↦ rw e (h.0, remove-IsTruthful i agents h.1)
]
