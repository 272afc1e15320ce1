-- ===== src/Routing/Tests.antt =====
-- A tenant with a rule for one number, open on Mondays, and a rule for every number.
use live_kit_voice_agent.Prelude.{
  false, ℕ, ◌≡◌, ◌⊎◌, refl, Bool, true, Option, none, some, [], ◌∷◌, Memᴰ,
}
use live_kit_voice_agent.Prelude.Sorting.{sorted, insert}
use live_kit_voice_agent.Prelude.Text.{Text, text}
use live_kit_voice_agent.Routing.Hours.{
  LocalTime, HoursRow, monday, load_hours_map, add_rows, add_row, new_hours, timezone_or_utc,
  check_open_now, holiday_verdict,
}
use live_kit_voice_agent.Routing.Resolve.{
  Rule, Inquiry, Tables, unrouted, routed, closed, RoutingDecision, conditions_of, matches,
  is_ahead, specificity, select_rules, select_candidates, judge, is_closed_now, is_open_now,
  first_route, resolve_route,
}
use live_kit_voice_agent.Routing.Choice.{is_shut, Settles}
use live_kit_voice_agent.Routing.Outcomes.{
  hours_for, Named, resolve_route-Settles, resolve_route-agent, resolve_route-unrouted,
}
use live_kit_voice_agent.Routing.Zones.{resolve_route_timezone}

abbrev general : Rule
general = record {
  id = 1;
  tenant_id = 7;
  is_active = true;
  name = text "general";
  priority = 100;
  conditions = none;
  agent_id = some 10;
  business_hours_id = none;
  fallback_action = none;
  fallback_agent_id = none;
  fallback_destination_id = none;
  closed_action = none;
  closed_destination_id = none;
}

abbrev sales : Rule
sales = record general {
  id = 2;
  name = text "sales";
  conditions = some ((text "did", some (text "+41")) ∷ (text "campaign", none) ∷ []);
  agent_id = some 20;
  business_hours_id = some 3;
}

abbrev mondays : HoursRow
mondays = record {
  id = 3;
  timezone = none;
  holidays = none;
  interval = some (record { day = monday; opens = 8; closes = 18 });
}

abbrev tables : Tables
tables = record { rules = general ∷ sales ∷ []; hours = mondays ∷ [] }

abbrev call : Inquiry
call = record {
  tenant_id = 7;
  tenant_timezone = text "Europe/Zurich";
  did = text "+41";
  caller_number = none;
  pbx_id = none;
  sip_trunk_id = none;
  pinned_rule_id = none;
}

abbrev at : ℕ → Text → Option LocalTime
at hour zone = some (record { today = text "2026-01-05"; weekday = monday; time = hour })

abbrev by_name : Text → Text → Bool
by_name a b = true

abbrev decision : RoutingDecision
decision = record {
  agent_id = 20;
  matched_rule_id = some 2;
  rule_name = some (text "sales");
  fallback_agent_id = none;
  fallback_action = none;
  fallback_destination_id = none;
}

by_day : resolve_route by_name (at 9) tables call ≡ routed decision
unfolding resolve_route select_rules select_candidates sorted insert is_ahead specificity
    first_route judge matches is_closed_now is_open_now check_open_now holiday_verdict
    load_hours_map add_rows add_row new_hours timezone_or_utc
by_day = refl

by_night : resolve_route by_name (at 20) tables call ≡ closed (text "sales")
unfolding resolve_route select_rules select_candidates sorted insert is_ahead specificity
    first_route judge matches is_closed_now is_open_now check_open_now holiday_verdict
    load_hours_map add_rows add_row new_hours timezone_or_utc
by_night = refl

abbrev unmanned : Rule
unmanned = record general { agent_id = none }

abbrev no_agent : Tables
no_agent = record { rules = unmanned ∷ []; hours = [] }

no_answer : resolve_route by_name (at 9) no_agent call ≡ unrouted
unfolding resolve_route select_rules select_candidates sorted insert is_ahead specificity
    first_route judge matches is_closed_now is_open_now check_open_now holiday_verdict
    load_hours_map add_rows add_row new_hours timezone_or_utc
no_answer = refl

candidate : Memᴰ unmanned (select_rules by_name no_agent call)
unfolding select_rules select_candidates sorted insert
candidate = Memᴰ.head refl

resolve_route-Settles_example :
    (r : Rule) × Settles
      (at 20)
      (hours_for by_name (at 20) tables call)
      call
      (select_rules by_name tables call)
      (closed (text "sales"))
      r
resolve_route-Settles_example =
    resolve_route-Settles by_name (at 20) tables call (closed (text "sales")) by_night (λ e. cc)

resolve_route-agent_example :
    (r : Rule) × Memᴰ r tables.rules
    × (r.tenant_id ≡ 7)
    × (r.is_active ≡ true)
    × (matches (conditions_of r) call ≡ true)
    × (some 2 ≡ some r.id)
    × Named (is_shut (at 9) (hours_for by_name (at 9) tables call) call r) r 20
resolve_route-agent_example = resolve_route-agent by_name (at 9) tables call decision by_day

resolve_route-unrouted_example :
    (matches (conditions_of unmanned) call ≡ false)
    ⊎ ((is_shut (at 9) (hours_for by_name (at 9) no_agent call) call unmanned ≡ false)
        × (unmanned.agent_id ≡ none))
resolve_route-unrouted_example =
    resolve_route-unrouted by_name (at 9) no_agent call unmanned no_answer candidate

resolve_route_timezone_example :
    resolve_route by_name (at 9) tables (record call { tenant_timezone = text "Asia/Tokyo" })
    ≡ resolve_route by_name (at 9) tables call
resolve_route_timezone_example =
    resolve_route_timezone by_name (at 9) tables call (text "Asia/Tokyo")
