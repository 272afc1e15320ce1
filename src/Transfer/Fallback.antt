-- ===== src/Transfer/Fallback.antt =====
-- services/ai-agent-worker/worker/transfer/fallback.py: what to do after a failed human leg.
pub mod Plans
use live_kit_voice_agent.Prelude.{
  ℕ, ◌≡◌, Bool, true, false, not, ◌&&◌, ◌||◌, Option, none, some, List, [], ◌∷◌, ◌==◌, any,
  if◌then◌else◌, is_some, keep_if,
}
use live_kit_voice_agent.Prelude.Text.{Text, text}
use live_kit_voice_agent.Models.{FallbackAction, secondary_agent, pbx_queue, voicemail, hangup}
use live_kit_voice_agent.Transfer.Status.{TransferStatus, transfer_fallback_triggers, is_in}
use live_kit_voice_agent.Transfer.Destinations.{TransferDestinationInfo, resolve_destination}

-- `TransferFallback` of services/ai-agent-worker/worker/transfer/destinations.py.
pub record TransferFallback : Type 0 where
  pub action : Option FallbackAction
  pub agent_id : Option ℕ
  pub destination_id : Option ℕ

pub record FallbackPlan : Type 0 where
  pub action : FallbackAction
  pub destination : Option TransferDestinationInfo
  pub spoken : Text
  pub hangup : Bool

unfoldable pub apology : FallbackAction → Text
apology secondary_agent =
    text "I'm sorry, no one is available right now. A colleague will follow up. Goodbye."
apology pbx_queue = text "I'm transferring you to the queue. Please stay on the line."
apology voicemail = text "No one is available. Please leave a message after the tone."
apology hangup = text "I'm sorry, I could not reach a human agent. Goodbye."

unfoldable pub is_fallback_trigger : TransferStatus → Bool
is_fallback_trigger status = is_in status transfer_fallback_triggers

abbrev pub is_retry_action : FallbackAction → Bool
is_retry_action pbx_queue = true
is_retry_action voicemail = true
is_retry_action _ = false

-- The action, HANGUP where none is configured.
abbrev pub planned_action : Option TransferFallback → FallbackAction
planned_action none = hangup
planned_action (some f) = elim f.action [ none ↦ hangup | some a ↦ a ]

-- The configured destination, unless it was tried.
abbrev pub untried : List ℕ → Option TransferDestinationInfo → Option TransferDestinationInfo
untried tried none = none
untried tried (some d) = if any (◌==◌ d.id) tried then none else some d

unfoldable pub planned_destination :
    Option TransferFallback → List TransferDestinationInfo → List ℕ → Option TransferDestinationInfo
planned_destination none ds tried = none
planned_destination (some f) ds tried = elim f.destination_id [
  | none ↦ none
  | some i ↦ untried tried (resolve_destination ds none (some i))
]

unfoldable pub plan_fallback :
    TransferStatus
    → Option TransferFallback
    → List TransferDestinationInfo
    → List ℕ
    → Option FallbackPlan
unfolding is_fallback_trigger
plan_fallback status fallback ds tried =
    let action = planned_action fallback in
    let destination = planned_destination fallback ds tried in
    let retry = is_retry_action action && is_some destination in
    if not (is_fallback_trigger status)
    then none
    else some (record {
      action = action;
      destination = keep_if retry destination;
      spoken = apology action;
      hangup = not retry;
    })
