-- ===== src/Loader/Tests.antt =====
-- A number with an agent of its own, and a rule whose agent has published nothing.
use live_kit_voice_agent.Prelude.{
  ◌<◌, ◌+◌, arith, ℕ, ◌≡◌, ◌⊎◌, refl, Bool, true, false, Option, none, some, List, [], ◌∷◌, Memᴰ,
  coalesce, find,
}
use live_kit_voice_agent.Prelude.Sorting.{sorted}
use live_kit_voice_agent.Prelude.Text.{Text, text}
use live_kit_voice_agent.Models.{secondary_agent}
use live_kit_voice_agent.Call.State.{new, completed, human_agent}
use live_kit_voice_agent.Routing.Hours.{LocalTime}
use live_kit_voice_agent.Routing.Resolve.{
  RoutingDecision, resolve_route, select_rules, select_candidates, first_route,
}
use live_kit_voice_agent.Loader.Limits.{
  is_full, Calendar, Call, Tenant, enforce_limits, active_calls, daily_calls, monthly_seconds,
}
use live_kit_voice_agent.Loader.Agent.{
  Agent, Resolved, answers, NumberRow, Database, SipCallInfo, resolve_secondary, resolve_agent,
  answer_route, answer_number, load,
}
use live_kit_voice_agent.Tools.Runtime.{ToolDefinition}
use live_kit_voice_agent.Loader.Tools.{
  ToolRow, Permission, permission, add_permissions, is_refused, grant_tools, load_tools,
}
use live_kit_voice_agent.Loader.Grants.{is_own, is_for, permission-coalesce, load_tools-mem}
use live_kit_voice_agent.Loader.Concurrency.{
  Loading, Reach, here, next, counts, records, Reach-active_calls,
}
use live_kit_voice_agent.Loader.Admission.{
  Publishes, resolve_agent-Publishes, Answers, load-Answers,
}

abbrev calendar : Calendar
calendar = record { date_in = λ zone now. now; month_start = λ day. 0 }

abbrev tenant : Tenant
tenant = record {
  id = 7;
  timezone = none;
  max_concurrent_calls = some 2;
  max_daily_calls = some 10;
  max_monthly_minutes = some 100;
}

abbrev old_call : Call
old_call = record {
  tenant_id = 7;
  state = human_agent;
  start_time = some 5;
  duration_seconds = none;
}

abbrev ended_call : Call
ended_call = record old_call { state = completed; duration_seconds = some 90 }

abbrev calls : List Call
calls = old_call ∷ ended_call ∷ []

within : enforce_limits calendar 9 calls tenant ≡ none
unfolding enforce_limits active_calls daily_calls monthly_seconds
within = refl

-- Two calls pass the count before either is recorded.
abbrev started : Loading
started = record { calls = calls; in_flight = 0 }

abbrev new_call : Call
new_call = record old_call { state = new }

abbrev crowded : Loading
crowded = record { calls = new_call ∷ new_call ∷ calls; in_flight = 0 }

one_active : is_full calls tenant ≡ false
unfolding is_full active_calls
one_active = refl

crowding : Reach tenant 2 started crowded
crowding =
    next
      (next (next (next here (counts one_active (omega arith))) (counts one_active (omega arith)))
        (records new_call))
      (records new_call)

started_below : active_calls 7 calls + 0 < 2 + 2
unfolding active_calls
started_below = omega arith

Reach-active_calls_example : active_calls 7 crowded.calls < 2 + 2
Reach-active_calls_example = Reach-active_calls tenant 2 2 refl started_below crowding

-- The tenant then has three active calls, where two are allowed.
crowded_exceeds : active_calls 7 crowded.calls ≡ 3
unfolding active_calls
crowded_exceeds = refl

abbrev draft : Agent
draft = record { id = 1; is_active = true; name = text "Draft"; published_version_id = none }

abbrev live : Agent
live = record { id = 2; is_active = true; name = text "Live"; published_version_id = some 30 }

abbrev agents : List Agent
agents = draft ∷ live ∷ []

abbrev decision : RoutingDecision
decision = record {
  agent_id = 1;
  matched_rule_id = some 1;
  rule_name = some (text "rule");
  fallback_agent_id = some 2;
  fallback_action = some secondary_agent;
  fallback_destination_id = none;
}

abbrev by_live : Resolved
by_live = record { agent_id = 2; agent_name = text "Live"; version_id = 30 }

falls_back : resolve_agent agents decision ≡ answers by_live
unfolding resolve_agent resolve_secondary
falls_back = refl

resolve_agent-Publishes_example :
    (a : Agent) × Memᴰ a agents
    × (a.is_active ≡ true)
    × Publishes a by_live
    × ((a.id ≡ 1) ⊎ (some 2 ≡ some a.id))
resolve_agent-Publishes_example = resolve_agent-Publishes agents decision by_live falls_back

abbrev number : NumberRow
number = record {
  number = text "+41";
  is_active = true;
  tenant = tenant;
  tenant_is_active = true;
  agent = some live;
  pbx_id = none;
  sip_trunk_id = none;
  routing_rule_id = none;
}

abbrev database : Database
database = record {
  numbers = number ∷ [];
  agents = agents;
  calls = calls;
  routing = record { rules = []; hours = [] };
}

abbrev sip : SipCallInfo
sip = record {
  livekit_trunk_id = none;
  called_number = some (text "+41");
  caller_number = none;
  livekit_call_id = none;
}

abbrev by_name : Text → Text → Bool
by_name a b = true

abbrev no_zone : Text → Option LocalTime
no_zone zone = none

loaded : load calendar by_name no_zone 9 database sip ≡ answers by_live
unfolding load answer_number enforce_limits active_calls daily_calls monthly_seconds answer_route
    resolve_route select_rules select_candidates sorted first_route
loaded = refl

load-Answers_example :
    (n : NumberRow) × Memᴰ n database.numbers
    × Answers calendar by_name no_zone 9 database sip n by_live
load-Answers_example = load-Answers calendar by_name no_zone 9 database sip by_live loaded

abbrev books : ToolRow
books = record { id = 4; name = text "book"; required = none; is_builtin = false }

abbrev for_all : Permission ℕ
for_all = record {
  tool_id = 4;
  agent_id = none;
  allowed = false;
  max_calls_per_conversation = none;
  denied_arguments = none;
}

abbrev for_agent : Permission ℕ
for_agent = record for_all {
  agent_id = some 2;
  allowed = true;
  max_calls_per_conversation = some 1;
}

abbrev book : ToolDefinition ℕ
book = record {
  name = text "book";
  required = none;
  denied_arguments = [];
  max_calls_per_conversation = some 1;
  is_builtin = false;
}

granted : load_tools (books ∷ []) (for_all ∷ for_agent ∷ []) ≡ book ∷ []
unfolding load_tools add_permissions grant_tools
granted = refl

permission-coalesce_example :
    permission (add_permissions [] (for_all ∷ for_agent ∷ [])) 4 ≡ some for_agent
permission-coalesce_example = permission-coalesce (for_all ∷ for_agent ∷ []) 4

is_book : Memᴰ book (load_tools (books ∷ []) (for_all ∷ for_agent ∷ []))
unfolding load_tools add_permissions grant_tools
is_book = Memᴰ.head refl

load_tools-mem_example :
    (r : ToolRow) × Memᴰ r (books ∷ [])
    × (is_refused (
          coalesce
            (find (is_own r.id) (for_all ∷ for_agent ∷ []))
            (find (is_for r.id) (for_all ∷ for_agent ∷ [])))
        ≡ false)
    × (text "book" ≡ r.name)
load_tools-mem_example = load_tools-mem (books ∷ []) (for_all ∷ for_agent ∷ []) book is_book
