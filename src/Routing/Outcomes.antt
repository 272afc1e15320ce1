-- ===== src/Routing/Outcomes.antt =====
-- What `resolve_route` promises the caller of the number, the tenant and its other rules.
use live_kit_voice_agent.Prelude.{
  ℕ, ◌≡◌, ◌≢◌, refl, sym, ◌∙◌, Bool, true, false, not, Option, none, some, List, [], ◌∷◌, Memᴰ,
  is_some, arith, Option-cases, Bool-cases, inl, inr, ◌⊎◌, ==_iff, ◌==◌,
}
use live_kit_voice_agent.Prelude.Sorting.{
  sorted, all, all-mem, sorted-mem, sorted-all, sorted-is_sorted,
}
use live_kit_voice_agent.Prelude.Text.{Text}
use live_kit_voice_agent.Models.{secondary_agent}
use live_kit_voice_agent.Routing.Hours.{HoursMap, LocalTime, load_hours_map, check_open_now}
use live_kit_voice_agent.Routing.Resolve.{
  Rule, Inquiry, Tables, Route, unrouted, routed, closed, RoutingDecision, conditions_of, matches,
  is_ahead, is_closed_now, is_open_now, judge, first_route, hours_ids, is_candidate, filter_rules,
  is_listed_before, select_rules, select_candidates, resolve_route,
}
use live_kit_voice_agent.Routing.Choice.{
  is_ahead_total, is_ahead_trans, filter_rules-mem, limit_one-mem, yields_to, Settles,
  first_route-Settles, Verdict, secondary, refused, own, judge-Verdict, is_shut,
}

routed_lem : {d : RoutingDecision} → routed d ≢ unrouted
routed_lem e = cc

-- The agent that the rule names: while its schedule is closed, the secondary one of an action that asks
-- for it, and otherwise the rule's own.
pub data Named (shut : Bool) (r : Rule) (agent : ℕ) : Type 0 where
  shut_agent :
      shut ≡ true
      → r.closed_action ≡ some secondary_agent
      → r.fallback_agent_id ≡ some agent
      → Named shut r agent
  open_agent : shut ≡ false → r.agent_id ≡ some agent → Named shut r agent

Verdict-routed :
    (local : Text → Option LocalTime) (hours : HoursMap) (q : Inquiry) (r : Rule)
    (d : RoutingDecision)
    → Verdict local hours q r (routed d)
    → (matches (conditions_of r) q ≡ true)
      × (d.matched_rule_id ≡ some r.id)
      × Named (is_shut local hours q r) r d.agent_id
Verdict-routed local hours q r d (secondary a fits shut action agent e) =
    (fits, ground (arith, e), shut_agent shut action (ground (arith, e, agent)))
Verdict-routed local hours q r d (refused fits shut e) = absurd (ground (arith, e))
Verdict-routed local hours q r d (own a fits opened agent e) =
    (fits, ground (arith, e), open_agent opened (ground (arith, e, agent)))

module _ (name_le : Text → Text → Bool) (local : Text → Option LocalTime) where
  abbrev pub hours_for : Tables → Inquiry → HoursMap
  unfolding load_hours_map select_rules
  hours_for db q = load_hours_map db.hours (hours_ids (select_rules name_le db q))

  select_candidates-mem :
      (i : Option ℕ) (rs : List Rule) {r : Rule}
      → Memᴰ r (select_candidates name_le i rs)
      → Memᴰ r rs
  unfolding select_candidates
  select_candidates-mem none rs m = sorted-mem (is_listed_before name_le) rs m
  select_candidates-mem (some i) rs m = limit_one-mem rs m

  select_rules-mem :
      (db : Tables) (q : Inquiry) {r : Rule}
      → Memᴰ r (select_rules name_le db q)
      → Memᴰ r db.rules × (is_candidate q r ≡ true)
  unfolding select_rules
  select_rules-mem db q m =
      filter_rules-mem (is_candidate q) db.rules
        (select_candidates-mem q.pinned_rule_id (filter_rules (is_candidate q) db.rules) m)

  -- Where the call is routed or refused, a rule of the candidates did that, and no candidate that
  -- would have answered or refused the call is ahead of it by priority and specificity.
  pub resolve_route-Settles :
      (db : Tables) (q : Inquiry) (route : Route)
      → resolve_route name_le local db q ≡ route
      → route ≢ unrouted
      → (r : Rule) × Settles local (hours_for db q) q (select_rules name_le db q) route r
  unfolding resolve_route
  resolve_route-Settles db q route h n =
      let rules = select_rules name_le db q in
      let ordered = sorted-is_sorted is_ahead is_ahead_total is_ahead_trans rules in
      let (r, k) =
        first_route-Settles local (hours_for db q) q (sorted is_ahead rules) route ordered h n in
      (
        r,
        record {
          candidate = sorted-mem is_ahead rules k.candidate;
          settled = k.settled;
          first = sym (sorted-all is_ahead (yields_to local (hours_for db q) q r) rules) ∙ k.first;
        },
      )

  -- A call that is routed gets an agent that an active rule of its own tenant, which matches it, names:
  -- the rule's own agent where its schedule is not closed, and its secondary one where the schedule is
  -- closed and the rule's action then is the secondary agent.
  pub resolve_route-agent :
      (db : Tables) (q : Inquiry) (d : RoutingDecision)
      → resolve_route name_le local db q ≡ routed d
      → (r : Rule) × Memᴰ r db.rules
        × (r.tenant_id ≡ q.tenant_id)
        × (r.is_active ≡ true)
        × (matches (conditions_of r) q ≡ true)
        × (d.matched_rule_id ≡ some r.id)
        × Named (is_shut local (hours_for db q) q r) r d.agent_id
  resolve_route-agent db q d h =
      let (r, k) = resolve_route-Settles db q (routed d) h routed_lem in
      let (m, candidate) = select_rules-mem db q k.candidate in
      let tenant : (r.tenant_id == q.tenant_id) ≡ true = ground (arith, candidate) in
      let active : r.is_active ≡ true = ground (arith, candidate) in
      let (fits, matched, agent) =
        Verdict-routed local (hours_for db q) q r d
          (judge-Verdict local (hours_for db q) q r (routed d) k.settled) in
      (r, m, (==_iff r.tenant_id q.tenant_id).0 tenant, active, fits, matched, agent)

first_route-unrouted :
    (local : Text → Option LocalTime) (hours : HoursMap) (q : Inquiry) (rs : List Rule)
    → first_route local hours q rs ≡ unrouted
    → all (λ s. not (is_some (judge local hours q s))) rs ≡ true
unfolding first_route
first_route-unrouted local hours q [] h = refl
first_route-unrouted local hours q (r ∷ rs) h = elim (Option-cases (judge local hours q r)) [
  | inl skipped ↦
      let rest = first_route-unrouted local hours q rs (ground arith) in
      ground (arith, skipped, rest)
  | inr (found, e) ↦ elim (judge-Verdict local hours q r found e) [
    | secondary a fits shut action agent f ↦ absurd (ground (arith, e, f))
    | refused fits shut f ↦ absurd (ground (arith, e, f))
    | own a fits opened agent f ↦ absurd (ground (arith, e, f))
  ]
]

judge-none :
    (local : Text → Option LocalTime) (hours : HoursMap) (q : Inquiry) (r : Rule)
    → judge local hours q r ≡ none
    → (matches (conditions_of r) q ≡ false)
      ⊎ ((is_shut local hours q r ≡ false) × (r.agent_id ≡ none))
unfolding judge
judge-none local hours q r h = elim (Bool-cases (matches (conditions_of r) q)) [
  | inr unfit ↦ inl unfit
  | inl fits ↦ elim (Bool-cases (is_shut local hours q r)) [
    | inl shut ↦ absurd (ground (arith, fits, shut))
    | inr opened ↦ elim (Option-cases r.agent_id) [
      | inl missing ↦ inr (opened, missing)
      | inr (a, agent) ↦ absurd (ground (arith, fits, opened, agent))
    ]
  ]
]

module _ (name_le : Text → Text → Bool) (local : Text → Option LocalTime) where
  -- A call is left unrouted only if each candidate rule does not match it, or has a schedule that is not
  -- closed and names no agent of its own.
  pub resolve_route-unrouted :
      (db : Tables) (q : Inquiry) (r : Rule)
      → resolve_route name_le local db q ≡ unrouted
      → Memᴰ r (select_rules name_le db q)
      → (matches (conditions_of r) q ≡ false)
        ⊎ ((is_shut local (hours_for name_le local db q) q r ≡ false) × (r.agent_id ≡ none))
  unfolding resolve_route
  resolve_route-unrouted db q r h m =
      let hours = hours_for name_le local db q in
      let rules = select_rules name_le db q in
      let skipped : Rule → Bool = λ s. not (is_some (judge local hours q s)) in
      let every = sorted-all is_ahead skipped rules in
      let found = first_route-unrouted local hours q (sorted is_ahead rules) h in
      let here = all-mem skipped rules (sym every ∙ found) m in
      elim (Option-cases (judge local hours q r)) [
        | inl e ↦ judge-none local hours q r e
        | inr (found, e) ↦ absurd (ground (arith, here, e))
      ]

is_closed_now-unknown :
    (hours : HoursMap) (t : Text) (i : Option ℕ) → is_closed_now (λ z. none) hours t i ≡ false
unfolding is_closed_now is_open_now check_open_now
is_closed_now-unknown hours t none = refl
is_closed_now-unknown hours t (some i) = ground arith

-- Where the zone database knows no zone at all, no call is refused as closed.
pub resolve_route_unknown_zones :
    (name_le : Text → Text → Bool) (db : Tables) (q : Inquiry) (name : Text)
    → resolve_route name_le (λ z. none) db q ≢ closed name
resolve_route_unknown_zones name_le db q name h =
    let hours = hours_for name_le (λ z. none) db q in
    let (r, k) = resolve_route-Settles name_le (λ z. none) db q (closed name) h (λ e. cc) in
    let never = is_closed_now-unknown hours q.tenant_timezone r.business_hours_id in
    elim (judge-Verdict (λ z. none) hours q r (closed name) k.settled) [
      | secondary a fits shut action agent f ↦ absurd (ground (arith, f))
      | refused fits shut f ↦ absurd (ground (arith, shut, never))
      | own a fits opened agent f ↦ absurd (ground (arith, f))
    ]
