-- ===== src/Loader/Admission.antt =====
-- When a call is taken, and by whom it is answered then.
use live_kit_voice_agent.Prelude.{
  ℕ, ◌≡◌, ◌⊎◌, refl, ap, sym, ◌∙◌, inl, inr, Bool, true, false, Option, none, some, List, [], ◌∷◌,
  Memᴰ, ==_iff, ◌==◌, find, arith, Option-cases,
}
use live_kit_voice_agent.Prelude.Text.{Text, text, text_eq, text_eq_iff}
use live_kit_voice_agent.Prelude.Finding.{find-mem, find-passes}
use live_kit_voice_agent.Routing.Hours.{LocalTime}
use live_kit_voice_agent.Routing.Resolve.{
  RoutingDecision, Route, unrouted, routed, closed, resolve_route,
}
use live_kit_voice_agent.Loader.Limits.{Calendar, enforce_limits}
use live_kit_voice_agent.Loader.Agent.{
  Agent, Resolved, answers, refuses, NumberRow, Database, SipCallInfo, Attributes, from_attributes,
  is_agent, agent_row, published, secondary_of, resolve_secondary, resolve_agent, no_route,
  is_dialled, answer_route, answer_number, load, inquiry,
}

-- An attribute under another key than the two that name the dialled number has no bearing on the
-- number that the call is routed by: the caller's number is never taken for it.
pub from_attributes-called_number :
    (k v : Text) (attrs : Attributes)
    → text_eq k (text "sip.trunkPhoneNumber") ≡ false
    → text_eq k (text "sip.calledNumber") ≡ false
    → (from_attributes ((k, v) ∷ attrs)).called_number ≡ (from_attributes attrs).called_number
unfolding from_attributes
from_attributes-called_number k v attrs h g = rw (h, g)

-- The agent that an answer names: it publishes the version of the answer.
pub record Publishes (a : Agent) (r : Resolved) : Type 0 where
  pub id : r.agent_id ≡ a.id
  pub name : r.agent_name ≡ a.name
  pub version : a.published_version_id ≡ some r.version_id

published-Publishes : (a : Agent) (r : Resolved) → published (some a) ≡ some r → Publishes a r
published-Publishes a r h = elim (Option-cases a.published_version_id) [
  | inl e ↦ absurd (ground (arith, e))
  | inr (v, e) ↦ record {
    id = ground (arith, e);
    name = ground (arith, e);
    version = ground (arith, e);
  }
]

agent_row-mem :
    (agents : List Agent) (i : ℕ) (a : Agent)
    → agent_row agents i ≡ some a
    → Memᴰ a agents × (a.id ≡ i) × (a.is_active ≡ true)
agent_row-mem agents i a h =
    let passes = find-passes (is_agent i) agents h in
    let same : (a.id == i) ≡ true = ground (arith, passes) in
    (find-mem (is_agent i) agents h, (==_iff a.id i).0 same, ground (arith, passes))

resolve_secondary-Publishes :
    (agents : List Agent) (o : Option ℕ) (r : Resolved)
    → resolve_secondary agents o ≡ answers r
    → (a : Agent) × Memᴰ a agents × (a.is_active ≡ true) × Publishes a r × (o ≡ some a.id)
unfolding resolve_secondary
resolve_secondary-Publishes agents none r h = absurd (ground arith)
resolve_secondary-Publishes agents (some i) r h = elim (Option-cases (agent_row agents i)) [
  | inl e ↦ absurd (ground (arith, e))
  | inr (a, e) ↦
      let (m, same, active) = agent_row-mem agents i a e in
      let f : published (some a) ≡ some r = elim (Option-cases (published (some a))) [
        | inl g ↦ absurd (ground (arith, e, g))
        | inr (p, g) ↦ let k : p ≡ r = ground (arith, e, g) in g ∙ ap some k
      ] in
      (a, m, active, published-Publishes a r f, ap some (sym same))
]

-- Where a routed call is answered, it is by an active agent that has published the version that
-- answers, and that is the decision's agent or, where the decision falls back to one, its secondary
-- agent.
pub resolve_agent-Publishes :
    (agents : List Agent) (d : RoutingDecision) (r : Resolved)
    → resolve_agent agents d ≡ answers r
    → (a : Agent) × Memᴰ a agents
      × (a.is_active ≡ true)
      × Publishes a r
      × ((a.id ≡ d.agent_id) ⊎ (secondary_of d.fallback_action d.fallback_agent_id ≡ some a.id))
unfolding resolve_agent
resolve_agent-Publishes agents d r h = elim (Option-cases (agent_row agents d.agent_id)) [
  | inl e ↦ absurd (ground (arith, e))
  | inr (a, e) ↦ elim (Option-cases (published (some a))) [
    | inr (p, f) ↦
        let (m, same, active) = agent_row-mem agents d.agent_id a e in
        let g : p ≡ r = ground (arith, e, f) in
        (a, m, active, published-Publishes a r (f ∙ ap some g), inl same)
    | inl f ↦
        let other = secondary_of d.fallback_action d.fallback_agent_id in
        let k : resolve_secondary agents other ≡ answers r = ground (arith, e, f) in
        let (b, m, active, p, same) = resolve_secondary-Publishes agents other r k in
        (b, m, active, p, inr same)
  ]
]

module _ (calendar : Calendar) (name_le : Text → Text → Bool) (local : Text → Option LocalTime)
    (now : ℕ) (db : Database) (sip : SipCallInfo) where
  -- The agent that publishes an answer: the number's own agent, or an active agent that a rule named.
  pub record Answers (n : NumberRow) (r : Resolved) : Type 0 where
    pub called : sip.called_number ≡ some n.number
    pub active : n.is_active ≡ true
    pub tenant_active : n.tenant_is_active ≡ true
    pub within_limits : enforce_limits calendar now db.calls n.tenant ≡ none
    pub agent : Agent
    pub publishes : Publishes agent r
    pub chosen : (n.agent ≡ some agent) ⊎ (Memᴰ agent db.agents × (agent.is_active ≡ true))

  answer_route-Publishes :
      (own : Option Agent) (route : Route) (r : Resolved)
      → answer_route calendar name_le db.agents own route ≡ answers r
      → (a : Agent) × Publishes a r × ((own ≡ some a) ⊎ (Memᴰ a db.agents × (a.is_active ≡ true)))
  unfolding answer_route
  answer_route-Publishes none unrouted r h = absurd (ground arith)
  answer_route-Publishes (some a) unrouted r h = elim (Option-cases (published (some a))) [
    | inl e ↦ absurd (ground (arith, e))
    | inr (p, e) ↦
        let k : p ≡ r = ground (arith, e) in (a, published-Publishes a r (e ∙ ap some k), inl refl)
  ]
  answer_route-Publishes own (routed d) r h =
      let (a, m, active, p, why) = resolve_agent-Publishes db.agents d r h in
      (a, p, inr (m, active))
  answer_route-Publishes own (closed name) r h = absurd (ground arith)

  answer_number-missing :
      (did : Text) → answer_number calendar name_le local now db sip did none ≡ refuses no_route
  unfolding answer_number
  answer_number-missing did = refl

  answer_number-Answers :
      (did : Text) (n : NumberRow) (r : Resolved)
      → sip.called_number ≡ some did
      → is_dialled did n ≡ true
      → answer_number calendar name_le local now db sip did (some n) ≡ answers r
      → Answers n r
  unfolding answer_number
  answer_number-Answers did n r to d h =
      elim (Option-cases (enforce_limits calendar now db.calls n.tenant)) [
        | inr (limit, e) ↦ absurd (ground (arith, e))
        | inl e ↦
            let route = resolve_route name_le local db.routing (inquiry n did sip.caller_number) in
            let k : answer_route calendar name_le db.agents n.agent route ≡ answers r =
              ground (arith, e) in
            let (a, p, chosen) = answer_route-Publishes n.agent route r k in
            let same = (text_eq_iff n.number did).0 (ground arith) in
            record {
              called = to ∙ ap some (sym same);
              active = ground arith;
              tenant_active = ground arith;
              within_limits = e;
              agent = a;
              publishes = p;
              chosen = chosen;
            }
      ]

  -- The number that an answered call was made to is an active number of an active tenant whose limits
  -- allow the call, and the call is answered by the published version of that number's own agent or of
  -- an active agent.
  pub load-Answers :
      (r : Resolved)
      → load calendar name_le local now db sip ≡ answers r
      → (n : NumberRow) × Memᴰ n db.numbers × Answers n r
  unfolding load
  load-Answers r h = elim (Option-cases sip.called_number) [
    | inl e ↦ absurd (ground (arith, e))
    | inr ([], e) ↦ absurd (ground (arith, e))
    | inr (c ∷ cs, e) ↦ elim (Option-cases (find (is_dialled (c ∷ cs)) db.numbers)) [
      | inl f ↦ let g = answer_number-missing (c ∷ cs) in absurd (ground (arith, e, f, g))
      | inr (n, f) ↦ (
        n,
        find-mem (is_dialled (c ∷ cs)) db.numbers f,
        answer_number-Answers (c ∷ cs) n r e (find-passes (is_dialled (c ∷ cs)) db.numbers f)
            (ground (arith, e, f)),
      )
    ]
  ]
