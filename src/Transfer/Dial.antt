-- ===== src/Transfer/Dial.antt =====
-- services/ai-agent-worker/worker/transfer/dial.py: the SIP call to the human. The LiveKit server API
-- is a parameter.
use live_kit_voice_agent.Prelude.{
  ℕ, zero, suc, Bool, not, ◌||◌, Option, none, some, if◌then◌else◌, max,
}
use live_kit_voice_agent.Prelude.Text.{Text, text, contains, lower, is_truthy}
use live_kit_voice_agent.Transfer.Destinations.{TransferDestinationInfo}

pub data DialOutcome : Type 0 where
  answered no_answer busy rejected failed : DialOutcome

-- What an attempt to create the SIP participant does: it returns when the human answers, raises
-- `TypeError` on a field that the installed API does not know, or raises another exception.
pub data Attempt : Type 0 where
  returns : Attempt
  type_error : Text → Attempt
  other_error : Text → Attempt

-- The request: the fields of the minimum set, and those that only the full request has.
pub record SipRequest : Type 0 where
  pub sip_trunk_id : Text
  pub sip_call_to : Text
  pub ringing_timeout : Option ℕ

-- `livekit.api`: whether it can be imported, and what it answers to a request.
pub record LiveKitApi : Type 0 where
  pub importable : Bool
  pub create_sip_participant : SipRequest → Attempt

unfoldable pub map_sip_error : Text → DialOutcome
map_sip_error message =
    let t = lower message in
    if contains t (text "486") || contains t (text "busy")
    then busy
    else if contains t (text "603")
        || contains t (text "603 decline")
        || contains t (text "rejected")
        || contains t (text "declin")
    then rejected
    else if contains t (text "480")
        || contains t (text "408")
        || contains t (text "no answer")
        || contains t (text "timeout")
    then no_answer
    else failed

-- `max(5, int(destination.ring_timeout_seconds or 30))`
unfoldable pub ring_timeout : ℕ → ℕ
ring_timeout zero = 30
ring_timeout (suc n) = max 5 (suc n)

-- The retry with the minimum set of fields, where `TypeError` is an error as any other.
unfoldable pub second_attempt : Attempt → DialOutcome
second_attempt returns = answered
second_attempt (type_error e) = map_sip_error e
second_attempt (other_error e) = map_sip_error e

unfoldable pub dial_human : LiveKitApi → TransferDestinationInfo → DialOutcome
unfolding second_attempt ring_timeout
dial_human api d = if not (is_truthy d.target) then failed else elim d.livekit_trunk_id [
  | none ↦ failed
  | some trunk ↦
      if not (is_truthy trunk) || not api.importable
      then failed
      else elim (api.create_sip_participant (record {
        sip_trunk_id = trunk;
        sip_call_to = d.target;
        ringing_timeout = some (ring_timeout d.ring_timeout_seconds);
      })) [
        | returns ↦ answered
        | type_error _ ↦ second_attempt (
            api.create_sip_participant
              (record { sip_trunk_id = trunk; sip_call_to = d.target; ringing_timeout = none }))
        | other_error e ↦ map_sip_error e
      ]
]
