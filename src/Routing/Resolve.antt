-- ===== src/Routing/Resolve.antt =====
-- `resolve_route` of services/ai-agent-worker/worker/routing.py, with `_matches` and `_specificity`.
-- The conditions are the JSON object of the rule, its keys once each and its values texts or null, as
-- the API stores them; the PBX and the trunk of a call are their identifiers as texts. One reading of
-- the clock serves a call.
use live_kit_voice_agent.Prelude.{
  ℕ, ◌+◌, Bool, true, false, not, ◌&&◌, ◌||◌, Option, none, some, List, [], ◌∷◌, if◌then◌else◌, leb,
  ltb, ◌==◌, coalesce,
}
use live_kit_voice_agent.Prelude.Sorting.{sorted}
use live_kit_voice_agent.Prelude.Text.{Text, text, text_eq, is_truthy, starts_with}
use live_kit_voice_agent.Models.{FallbackAction, secondary_agent}
use live_kit_voice_agent.Routing.Hours.{
  HoursRow, HoursMap, Hours, LocalTime, hours_of, load_hours_map, check_open_now,
}

abbrev pub Conditions : Type 0
Conditions = List (Text × Option Text)

-- `conditions.get(key)`
abbrev pub condition : Conditions → Text → Option Text
condition [] key = none
condition ((k, v) ∷ cs) key = if text_eq k key then v else condition cs key

-- `_specificity`
unfoldable pub specificity : Conditions → ℕ
specificity [] = 0
specificity ((k, none) ∷ cs) = specificity cs
specificity ((k, some v) ∷ cs) = 1 + specificity cs

-- What `resolve_route` is told of the call.
pub record Inquiry : Type 0 where
  pub tenant_id : ℕ
  pub tenant_timezone : Text
  pub did : Text
  pub caller_number : Option Text
  pub pbx_id : Option Text
  pub sip_trunk_id : Option Text
  pub pinned_rule_id : Option ℕ

-- A condition that is null holds of every value, and any other of the same text alone.
abbrev pub agrees : Option Text → Option Text → Bool
agrees none value = true
agrees (some c) none = false
agrees (some c) (some v) = text_eq v c

-- The prefix condition, `(caller_number or "").startswith(cond)`.
abbrev pub agrees_prefix : Option Text → Option Text → Bool
agrees_prefix none value = true
agrees_prefix (some c) none = starts_with [] c
agrees_prefix (some c) (some v) = starts_with v c

-- `_matches`
unfoldable pub matches : Conditions → Inquiry → Bool
matches cs q =
    if not (agrees (condition cs (text "pbx_id")) q.pbx_id)
    then false
    else if not (agrees (condition cs (text "sip_trunk_id")) q.sip_trunk_id)
    then false
    else if not (agrees (condition cs (text "did")) (some q.did))
    then false
    else if not (agrees (condition cs (text "destination_number")) (some q.did))
    then false
    else if not (agrees (condition cs (text "caller_number")) q.caller_number)
    then false
    else agrees_prefix (condition cs (text "caller_number_prefix")) q.caller_number

-- A row of `routing_rules`.
pub record Rule : Type 0 where
  pub id : ℕ
  pub tenant_id : ℕ
  pub is_active : Bool
  pub name : Text
  pub priority : ℕ
  pub conditions : Option Conditions
  pub agent_id : Option ℕ
  pub business_hours_id : Option ℕ
  pub fallback_action : Option FallbackAction
  pub fallback_agent_id : Option ℕ
  pub fallback_destination_id : Option ℕ
  pub closed_action : Option FallbackAction
  pub closed_destination_id : Option ℕ

-- `RoutingDecision`
pub record RoutingDecision : Type 0 where
  pub agent_id : ℕ
  pub matched_rule_id : Option ℕ
  pub rule_name : Option Text
  pub fallback_agent_id : Option ℕ
  pub fallback_action : Option FallbackAction
  pub fallback_destination_id : Option ℕ

-- What `resolve_route` returns, or the `RoutingClosedError` that it raises.
pub data Route : Type 0 where
  unrouted : Route
  routed : RoutingDecision → Route
  closed : Text → Route

-- `rule["conditions"] or {}`
abbrev pub conditions_of : Rule → Conditions
conditions_of r = elim r.conditions [ none ↦ [] | some cs ↦ cs ]

-- The order of the key `(priority, -specificity)`.
unfoldable pub is_ahead : Rule → Rule → Bool
is_ahead r s =
    ltb r.priority s.priority
    || (r.priority == s.priority
        && leb (specificity (conditions_of s)) (specificity (conditions_of r)))

-- `closed_action == SECONDARY_AGENT and fallback_agent_id`: whom a closed rule routes to.
abbrev pub closed_agent : Option FallbackAction → Option ℕ → Option ℕ
closed_agent (some secondary_agent) agent = agent
closed_agent action agent = none

abbrev pub when_closed : Rule → Option ℕ → Route
when_closed r none = closed r.name
when_closed r (some agent) = routed (record {
  agent_id = agent;
  matched_rule_id = some r.id;
  rule_name = some r.name;
  fallback_agent_id = none;
  fallback_action = none;
  fallback_destination_id = none;
})

abbrev pub when_open : Rule → Option ℕ → Option Route
when_open r none = none
when_open r (some agent) = some (
    routed (record {
      agent_id = agent;
      matched_rule_id = some r.id;
      rule_name = some r.name;
      fallback_agent_id = r.fallback_agent_id;
      fallback_action = r.fallback_action;
      fallback_destination_id = coalesce r.fallback_destination_id r.closed_destination_id;
    }))

module _ (local : Text → Option LocalTime) where
  -- `_check_open_now(intervals, tz or tenant_timezone, holidays)`
  unfoldable pub is_open_now : Text → Option Hours → Option Bool
  unfolding check_open_now
  is_open_now tenant_timezone none = none
  is_open_now tenant_timezone (some h) =
      check_open_now h.intervals
        (local (if is_truthy h.timezone then h.timezone else tenant_timezone)) h.holidays

  -- `open_now is False`
  unfoldable pub is_closed_now : HoursMap → Text → Option ℕ → Bool
  unfolding is_open_now
  is_closed_now hours tenant_timezone none = false
  is_closed_now hours tenant_timezone (some i) =
      elim (is_open_now tenant_timezone (hours_of hours i)) [
        | some false ↦ true
        | some true ↦ false
        | none ↦ false
      ]

  -- The body of the loop over the rules: none where it goes on to the next rule.
  unfoldable pub judge : HoursMap → Inquiry → Rule → Option Route
  unfolding matches is_closed_now
  judge hours q r =
      if not (matches (conditions_of r) q)
      then none
      else if is_closed_now hours q.tenant_timezone r.business_hours_id
      then some (when_closed r (closed_agent r.closed_action r.fallback_agent_id))
      else when_open r r.agent_id

  unfoldable pub first_route : HoursMap → Inquiry → List Rule → Route
  unfolding judge
  first_route hours q [] = unrouted
  first_route hours q (r ∷ rs) =
      let rest = first_route hours q rs in
      elim (judge hours q r) [ none ↦ rest | some route ↦ route ]

-- `{r["business_hours_id"] for r in rules if r["business_hours_id"] is not None}`
abbrev pub hours_ids : List Rule → List ℕ
hours_ids [] = []
hours_ids (r ∷ rs) = elim r.business_hours_id [ none ↦ hours_ids rs | some i ↦ i ∷ hours_ids rs ]

-- The tables that the queries read, the hours joined to their intervals.
pub record Tables : Type 0 where
  pub rules : List Rule
  pub hours : List HoursRow

-- `WHERE r.tenant_id = :tenant_id AND r.status = 'ACTIVE'`, and `r.id = :rule_id` where one is pinned.
abbrev pub is_candidate : Inquiry → Rule → Bool
is_candidate q r =
    r.tenant_id == q.tenant_id
    && (r.is_active && elim q.pinned_rule_id [ none ↦ true | some i ↦ r.id == i ])

abbrev pub filter_rules : (Rule → Bool) → List Rule → List Rule
filter_rules test [] = []
filter_rules test (r ∷ rs) = if test r then r ∷ filter_rules test rs else filter_rules test rs

-- `LIMIT 1`
abbrev pub limit_one : List Rule → List Rule
limit_one [] = []
limit_one (r ∷ rs) = r ∷ []

-- `name_le` is the collation of the database, by which rules of one priority are listed.
module _ (name_le : Text → Text → Bool) where
  -- `ORDER BY r.priority ASC, r.name ASC`
  abbrev pub is_listed_before : Rule → Rule → Bool
  is_listed_before r s =
      ltb r.priority s.priority || (r.priority == s.priority && name_le r.name s.name)

  unfoldable pub select_candidates : Option ℕ → List Rule → List Rule
  unfolding sorted
  select_candidates none rs = sorted is_listed_before rs
  select_candidates (some i) rs = limit_one rs

  -- `_ALL_RULES_SQL` and `_PINNED_RULE_SQL`
  unfoldable pub select_rules : Tables → Inquiry → List Rule
  unfolding select_candidates
  select_rules db q = select_candidates q.pinned_rule_id (filter_rules (is_candidate q) db.rules)

  module _ (local : Text → Option LocalTime) where
    -- `resolve_route`; with no rules, the loop returns None as the early returns do.
    unfoldable pub resolve_route : Tables → Inquiry → Route
    unfolding select_rules sorted is_ahead load_hours_map first_route
    resolve_route db q =
        let rules = select_rules db q in
        first_route local (load_hours_map db.hours (hours_ids rules)) q (sorted is_ahead rules)
