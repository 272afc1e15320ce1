-- ===== src/Transfer/Tests.antt =====
-- Runs of the warm transfer, and each theorem at a busy desk whose fallback is a queue.
use live_kit_voice_agent.Prelude.{◌≡◌, refl, true, false, none, some, List, [], ◌∷◌}
use live_kit_voice_agent.Prelude.Text.{text, strip}
use live_kit_voice_agent.Models.{pbx_queue}
use live_kit_voice_agent.Transfer.Status.{
  requested, TransferRow, not_requested, bridged, agent_busy, agent_rejected, update_row,
}
use live_kit_voice_agent.Transfer.Destinations.{
  TransferDestinationInfo, sip_extension, by_id, by_name, resolve_destination,
}
use live_kit_voice_agent.Transfer.Fallback.{
  TransferFallback, FallbackPlan, plan_fallback, planned_destination, apology, is_fallback_trigger,
}
use live_kit_voice_agent.Transfer.Dial.{LiveKitApi, returns, other_error, dial_human, map_sip_error}
use live_kit_voice_agent.Transfer.Engine.World.{
  Context, World, quiet, ◌>>=◌, ◌>>◌, pure, raise, get, modify,
}
use live_kit_voice_agent.Transfer.Engine.Run.{transfer, run, after_whisper}
use live_kit_voice_agent.Transfer.Engine.Silence.{after_whisper_silent}
use live_kit_voice_agent.Transfer.Engine.Frame.{ends}
use live_kit_voice_agent.Transfer.Engine.Rounds.{Dials}
use live_kit_voice_agent.Transfer.Engine.Dials.{run-Dials}

abbrev desk : TransferDestinationInfo
desk = record {
  id = 1;
  name = text "Desk";
  kind = sip_extension;
  target = text "100";
  pbx_id = none;
  sip_trunk_id = none;
  livekit_trunk_id = some (text "ST_1");
  whisper_summary = true;
  ring_timeout_seconds = 20;
}

abbrev queue : TransferDestinationInfo
queue = record desk { id = 2; name = text "Queue"; target = text "200" }

abbrev answering : LiveKitApi
answering = record { importable = true; create_sip_participant = λ r. returns }

abbrev engaged : LiveKitApi
engaged = record { importable = true; create_sip_participant = λ r. other_error (text "486") }

abbrev to_queue : TransferFallback
to_queue = record { action = some pbx_queue; agent_id = none; destination_id = some 2 }

abbrev context : Context
context = record {
  enabled = true;
  announcement_text = none;
  summary_max_seconds = 30;
  skip_dtmf = none;
  destinations = desk ∷ queue ∷ [];
  fallback = some to_queue;
  has_room = true;
  has_caller = true;
  has_tts = true;
  summary_fields = text "{}";
  summary_spoken = text "Caller 1. Please accept.";
  livekit = answering;
}

abbrev empty_row : TransferRow
empty_row = record {
  status = not_requested;
  destination_id = none;
  announcement_started_at = none;
  agent_dialed_at = none;
  agent_answered_at = none;
  whisper_seconds = none;
  bridged_at = none;
  fallback_taken = none;
  summary = none;
}

abbrev idle : World
idle = record {
  status = not_requested;
  row = empty_row;
  tracker = none;
  hold = false;
  whisper = false;
  skip = false;
  abandoned = false;
  human_left = false;
  bridged = false;
  dtmf_bound = false;
  tried = [];
  clock = 0;
  feed = [];
  dialled = [];
  said = [];
  whispered = [];
  joined = false;
  unisolated = false;
  overheard = false;
  ai_left = false;
  hung_up = false;
}

bridges :
    ((transfer context none idle).1.status ≡ bridged)
    × ((transfer context none idle).1.joined ≡ true)
unfolding transfer resolve_destination update_row dial_human
bridges = (refl, refl)

abbrev busy_context : Context
busy_context = record context { livekit = engaged }

busy_dials :
    ((transfer busy_context none idle).1.status ≡ agent_busy)
    × ((transfer busy_context none idle).1.dialled ≡ 2 ∷ 1 ∷ [])
    × ((transfer busy_context none idle).1.hung_up ≡ true)
unfolding transfer resolve_destination update_row dial_human map_sip_error plan_fallback
    planned_destination apology
busy_dials = (refl, refl, refl)

abbrev pair : List TransferDestinationInfo
pair = desk ∷ queue ∷ []

abbrev queue_plan : FallbackPlan
queue_plan = record {
  action = pbx_queue;
  destination = some queue;
  spoken = apology pbx_queue;
  hangup = false;
}

abbrev no_plan : FallbackPlan
no_plan = record {
  action = pbx_queue;
  destination = none;
  spoken = apology pbx_queue;
  hangup = true;
}

planned : plan_fallback agent_busy (some to_queue) pair (1 ∷ []) ≡ some queue_plan
unfolding plan_fallback planned_destination resolve_destination by_id
planned = refl

planned_later : plan_fallback agent_rejected (some to_queue) pair (2 ∷ 1 ∷ []) ≡ some no_plan
unfolding plan_fallback planned_destination resolve_destination by_id
planned_later = refl

resolved : resolve_destination pair (some (text " que")) (some 7) ≡ some queue
unfolding resolve_destination by_id by_name strip
resolved = refl

abbrev begun : World
begun = record idle { status = requested }

run-Dials_example :
    Dials desk begun (run busy_context desk begun).1 × (ends (run busy_context desk begun).0 ≡ true)
run-Dials_example = run-Dials busy_context desk begun

-- The sixth await is that of isolating the legs.
abbrev unlucky : World
unlucky = record begun {
  feed = quiet ∷ quiet ∷ quiet ∷ quiet ∷ quiet ∷ record quiet { raises = true } ∷ [];
}

-- Where isolating succeeds, the whisper is played to the human alone.
whisper_private : (run context desk begun).1.overheard ≡ false
unfolding run ◌>>=◌ ◌>>◌ pure raise get modify update_row dial_human
whisper_private = refl

abbrev to_no_queue : TransferFallback
to_no_queue = record { action = some pbx_queue; agent_id = none; destination_id = none }

busy_triggers : is_fallback_trigger agent_busy ≡ true
unfolding is_fallback_trigger
busy_triggers = refl

abbrev left_whisper : World
left_whisper = record idle { human_left = true; dialled = 1 ∷ [] }

planned_rejected : plan_fallback agent_rejected (some to_queue) pair (1 ∷ []) ≡ some queue_plan
unfolding plan_fallback planned_destination resolve_destination by_id
planned_rejected = refl

after_whisper_silent_example :
    ((after_whisper context desk 3000 left_whisper).1.dialled ≡ 1 ∷ [])
    × ((after_whisper context desk 3000 left_whisper).1.hung_up ≡ false)
after_whisper_silent_example =
    after_whisper_silent context desk queue_plan 3000 left_whisper refl refl planned_rejected refl
