-- ===== src/Loader/Agent.antt =====
-- Which agent answers: `_fallback_from_decision`, `from_attributes`, `_resolve_agent` and the first
-- half of `load` of services/ai-agent-worker/worker/config_loader.py, up to the resolved version.
use live_kit_voice_agent.Prelude.{
  ℕ, Bool, not, ◌&&◌, Option, none, some, List, [], ◌∷◌, if◌then◌else◌, ◌==◌, find, is_some,
}
use live_kit_voice_agent.Prelude.Text.{Text, text, text_eq, is_truthy}
use live_kit_voice_agent.Models.{FallbackAction, secondary_agent}
use live_kit_voice_agent.Routing.Hours.{LocalTime}
use live_kit_voice_agent.Routing.Resolve.{
  RoutingDecision, Route, unrouted, routed, closed, Tables, Inquiry, resolve_route,
}
use live_kit_voice_agent.Transfer.Fallback.{TransferFallback}
use live_kit_voice_agent.Loader.Limits.{Calendar, Call, Tenant, Limit, enforce_limits}

-- `_fallback_from_decision`
unfoldable pub fallback_from_decision : Option RoutingDecision → Option TransferFallback
fallback_from_decision none = none
fallback_from_decision (some d) =
    if not (is_some d.fallback_action)
      && (not (is_some d.fallback_agent_id) && not (is_some d.fallback_destination_id))
    then none
    else some (record {
      action = d.fallback_action;
      agent_id = d.fallback_agent_id;
      destination_id = d.fallback_destination_id;
    })

abbrev pub Attributes : Type 0
Attributes = List (Text × Text)

-- `attributes.get(key)`
abbrev pub attribute : Attributes → Text → Option Text
attribute [] key = none
attribute ((k, v) ∷ attrs) key = if text_eq k key then some v else attribute attrs key

-- `a or b`, where an empty text is false.
abbrev pub or_else : Option Text → Option Text → Option Text
or_else none b = b
or_else (some t) b = if is_truthy t then some t else b

-- `SipCallInfo`
pub record SipCallInfo : Type 0 where
  pub livekit_trunk_id : Option Text
  pub called_number : Option Text
  pub caller_number : Option Text
  pub livekit_call_id : Option Text

-- `from_attributes`
unfoldable pub from_attributes : Attributes → SipCallInfo
from_attributes attrs = record {
  livekit_trunk_id = attribute attrs (text "sip.trunkID");
  called_number =
      or_else (attribute attrs (text "sip.trunkPhoneNumber"))
        (attribute attrs (text "sip.calledNumber"));
  caller_number =
      or_else
        (or_else
          (or_else (attribute attrs (text "sip.phoneNumber")) (attribute attrs (text "sip.from")))
          (attribute attrs (text "sip.fromUser")))
        (attribute attrs (text "sip.callerNumber"));
  livekit_call_id = attribute attrs (text "sip.callID");
}

-- A row of `agents`.
pub record Agent : Type 0 where
  pub id : ℕ
  pub is_active : Bool
  pub name : Text
  pub published_version_id : Option ℕ

-- `(agent_id, agent_name, published_version_id)`
pub record Resolved : Type 0 where
  pub agent_id : ℕ
  pub agent_name : Text
  pub version_id : ℕ

-- What the loader raises: `NoRouteError`, `NotPublishedError` and `TenantLimitExceededError`.
pub data Refusal : Type 0 where
  no_route not_published : Refusal
  limit_exceeded : Limit → Refusal

pub data Answer : Type 0 where
  answers : Resolved → Answer
  refuses : Refusal → Answer

abbrev pub is_agent : ℕ → Agent → Bool
is_agent i a = a.id == i && a.is_active

-- `_AGENT_SQL`
abbrev pub agent_row : List Agent → ℕ → Option Agent
agent_row agents i = find (is_agent i) agents

-- The row with the version that it publishes, if it publishes one.
abbrev pub published : Option Agent → Option Resolved
published none = none
published (some a) = elim a.published_version_id [
  | none ↦ none
  | some v ↦ some (record { agent_id = a.id; agent_name = a.name; version_id = v })
]

abbrev pub or_refuse : Option Resolved → Refusal → Answer
or_refuse none r = refuses r
or_refuse (some a) r = answers a

-- Whom the decision falls back to.
abbrev pub secondary_of : Option FallbackAction → Option ℕ → Option ℕ
secondary_of (some secondary_agent) agent = agent
secondary_of action agent = none

-- The part of `_resolve_agent` that follows an unpublished primary agent.
unfoldable pub resolve_secondary : List Agent → Option ℕ → Answer
resolve_secondary agents none = refuses not_published
resolve_secondary agents (some i) = or_refuse (published (agent_row agents i)) not_published

abbrev pub answer_or : Option Resolved → Answer → Answer
answer_or none rest = rest
answer_or (some a) rest = answers a

-- `_resolve_agent`
unfoldable pub resolve_agent : List Agent → RoutingDecision → Answer
unfolding resolve_secondary
resolve_agent agents d = elim (agent_row agents d.agent_id) [
  | none ↦ refuses no_route
  | some a ↦
      answer_or (published (some a))
        (resolve_secondary agents (secondary_of d.fallback_action d.fallback_agent_id))
]

-- The row of `_RESOLVE_SQL`: the number with its tenant, and its own agent where it has one.
pub record NumberRow : Type 0 where
  pub number : Text
  pub is_active : Bool
  pub tenant : Tenant
  pub tenant_is_active : Bool
  pub agent : Option Agent
  pub pbx_id : Option Text
  pub sip_trunk_id : Option Text
  pub routing_rule_id : Option ℕ

abbrev pub is_dialled : Text → NumberRow → Bool
is_dialled did n = text_eq n.number did && (n.is_active && n.tenant_is_active)

-- The agent of the number, which need not be active.
abbrev pub direct_agent : Option Agent → Answer
direct_agent none = refuses no_route
direct_agent (some a) = or_refuse (published (some a)) not_published

pub record Database : Type 0 where
  pub numbers : List NumberRow
  pub agents : List Agent
  pub calls : List Call
  pub routing : Tables

abbrev pub inquiry : NumberRow → Text → Option Text → Inquiry
inquiry n did caller = record {
  tenant_id = n.tenant.id;
  tenant_timezone = elim n.tenant.timezone [
    | none ↦ text "UTC"
    | some z ↦ if is_truthy z then z else text "UTC"
  ];
  did = did;
  caller_number = caller;
  pbx_id = n.pbx_id;
  sip_trunk_id = n.sip_trunk_id;
  pinned_rule_id = n.routing_rule_id;
}

module _ (calendar : Calendar) (name_le : Text → Text → Bool) where
  unfoldable pub answer_route : List Agent → Option Agent → Route → Answer
  unfolding resolve_agent
  answer_route agents own unrouted = direct_agent own
  answer_route agents own (routed d) = resolve_agent agents d
  answer_route agents own (closed name) = refuses no_route

  unfoldable pub answer_number :
      (Text → Option LocalTime) → ℕ → Database → SipCallInfo → Text → Option NumberRow → Answer
  unfolding enforce_limits resolve_route answer_route
  answer_number local now db sip did none = refuses no_route
  answer_number local now db sip did (some n) =
      elim (enforce_limits calendar now db.calls n.tenant) [
        | some limit ↦ refuses (limit_exceeded limit)
        | none ↦
            answer_route db.agents n.agent
              (resolve_route name_le local db.routing (inquiry n did sip.caller_number))
      ]

  -- `load`, up to `resolved_version_id`.
  unfoldable pub load : (Text → Option LocalTime) → ℕ → Database → SipCallInfo → Answer
  unfolding answer_number
  load local now db sip = elim sip.called_number [
    | none ↦ refuses no_route
    | some did ↦
        if is_truthy did
        then answer_number local now db sip did (find (is_dialled did) db.numbers)
        else refuses no_route
  ]
