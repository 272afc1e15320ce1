-- ===== src/Agents/Replacement.antt =====
-- What the replacement of an agent's row keeps of a tenant's agents.
use live_kit_voice_agent.Prelude.{
  ℕ, ◌≡◌, refl, ap, sym, ◌∙◌, Bool, true, false, not, ◌&&◌, none, some, List, [], ◌∷◌, map, ◌==◌,
  any, arith, Bool-cases, inl, inr, ==_iff, All,
}
use live_kit_voice_agent.Prelude.Sorting.{all}
use live_kit_voice_agent.Prelude.Text.{Text, text_eq}
use live_kit_voice_agent.Agents.Versions.{Agent}
use live_kit_voice_agent.Agents.Rows.{is_distinct}
use live_kit_voice_agent.Agents.Truthful.{IsTruthful}
use live_kit_voice_agent.Agents.Directory.{PhoneNumber, is_named, is_agent, put_agent, is_other}

abbrev pub distinct_names : List Agent → Bool
distinct_names [] = true
distinct_names (a ∷ rest) = not (any (is_named a.name) rest) && distinct_names rest

-- A number without an agent, or with one that exists.
abbrev pub is_answered : List Agent → PhoneNumber → Bool
is_answered agents n = elim n.inbound_agent_id [ none ↦ true | some i ↦ any (is_agent i) agents ]

-- A replacement with the same identifier, and with a name that no other agent has.
pub any-put_agent :
    (i j : ℕ) (b : Agent) (agents : List Agent)
    → b.id ≡ i
    → any (is_agent j) (put_agent i b agents) ≡ any (is_agent j) agents
any-put_agent i j b [] e = refl
any-put_agent i j b (a ∷ agents) e = elim (Bool-cases (a.id == i)) [
  | inr k ↦ let rest = any-put_agent i j b agents e in ground (arith, k, rest)
  | inl k ↦
      let rest = any-put_agent i j b agents e in
      let same : a.id ≡ b.id = (==_iff a.id i).0 k ∙ sym e in ground (arith, k, rest, same)
]

pub ids-put_agent :
    (i : ℕ) (b : Agent) (agents : List Agent)
    → b.id ≡ i
    → map (λ a. a.id) (put_agent i b agents) ≡ map (λ a. a.id) agents
ids-put_agent i b [] e = refl
ids-put_agent i b (a ∷ agents) e = elim (Bool-cases (a.id == i)) [
  | inr k ↦ rw (k, ids-put_agent i b agents e) refl
  | inl k ↦
      let same : b.id ≡ a.id = e ∙ sym ((==_iff a.id i).0 k) in
      rw (k, same, ids-put_agent i b agents e) refl
]

pub IsTruthful-put_agent :
    (i : ℕ) (b : Agent) (agents : List Agent)
    → IsTruthful b
    → All IsTruthful agents
    → All IsTruthful (put_agent i b agents)
IsTruthful-put_agent i b [] t ts = ts
IsTruthful-put_agent i b (a ∷ agents) t ts = elim (Bool-cases (a.id == i)) [
  | inr k ↦ rw k (ts.0, IsTruthful-put_agent i b agents t ts.1)
  | inl k ↦ rw k (t, IsTruthful-put_agent i b agents t ts.1)
]

named-put_agent :
    (i : ℕ) (t : Text) (b : Agent) (agents : List Agent)
    → any (is_named t) agents ≡ false
    → is_named t b ≡ false
    → any (is_named t) (put_agent i b agents) ≡ false
named-put_agent i t b [] h k = refl
named-put_agent i t b (a ∷ agents) h k =
    let rest = named-put_agent i t b agents (ground arith) k in ground (arith, rest)

absent-put_agent :
    (i : ℕ) (b : Agent) (agents : List Agent)
    → all (λ m. not (m == i)) (map (λ a. a.id) agents) ≡ true
    → put_agent i b agents ≡ agents
absent-put_agent i b [] h = refl
absent-put_agent i b (a ∷ agents) h =
    let k : (a.id == i) ≡ false = ground arith in
    let rest = absent-put_agent i b agents (ground arith) in rw (k, rest) refl

-- Where no agent has the identifier, all of them are others.
others :
    (i : ℕ) (t : Text) (agents : List Agent)
    → all (λ m. not (m == i)) (map (λ a. a.id) agents) ≡ true
    → any (is_other i t) agents ≡ false
    → any (is_named t) agents ≡ false
others i t [] h k = refl
others i t (a ∷ agents) h k =
    let rest = others i t agents (ground arith) (ground arith) in ground (arith, rest)

pub text_eq_sym : (s t : Text) → text_eq s t ≡ text_eq t s
text_eq_sym [] [] = refl
text_eq_sym [] (y ∷ ys) = refl
text_eq_sym (x ∷ xs) [] = refl
text_eq_sym (x ∷ xs) (y ∷ ys) = let rest = text_eq_sym xs ys in ground (arith, rest)

pub names-put_agent :
    (i : ℕ) (b : Agent) (agents : List Agent)
    → is_distinct (map (λ a. a.id) agents) ≡ true
    → distinct_names agents ≡ true
    → any (is_other i b.name) agents ≡ false
    → distinct_names (put_agent i b agents) ≡ true
names-put_agent i b [] d n h = refl
names-put_agent i b (a ∷ agents) d n h = elim (Bool-cases (a.id == i)) [
  | inr k ↦
      let rest = names-put_agent i b agents (ground arith) (ground arith) (ground arith) in
      let mirror = text_eq_sym b.name a.name in
      let apart : is_named a.name b ≡ false = ground (arith, k, mirror) in
      let free = named-put_agent i a.name b agents (ground arith) apart in
      ground (arith, k, rest, free)
  | inl k ↦
      let same = (==_iff a.id i).0 k in
      let gone : all (λ m. not (m == i)) (map (λ a. a.id) agents) ≡ true =
        ap (λ j. all (λ m. not (m == j)) (map (λ a. a.id) agents)) (sym same) ∙ ground arith in
      let rest = absent-put_agent i b agents gone in
      let free = others i b.name agents gone (ground arith) in rw (k, rest, free) (ground arith)
]
