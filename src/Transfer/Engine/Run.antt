-- ===== src/Transfer/Engine/Run.antt =====
-- `request`, `_run`, `_on_answered`, `_bridge` and `_fail` of `WarmTransfer`.
use live_kit_voice_agent.Prelude.{
  ℕ, zero, suc, Bool, true, false, not, ◌&&◌, ◌||◌, Option, none, some, [], ◌∷◌, if◌then◌else◌,
}
use live_kit_voice_agent.Prelude.Text.{Text, is_truthy}
use live_kit_voice_agent.Call.State.{CallState}
use live_kit_voice_agent.Transfer.Status as Status
use live_kit_voice_agent.Transfer.Status.{
  TransferStatus, Fields, no_fields, is_same, not_requested, requested, announcing, dialing_agent,
  whispering_summary, bridged, agent_no_answer, agent_busy, agent_rejected,
}
use live_kit_voice_agent.Transfer.Destinations.{TransferDestinationInfo, resolve_destination}
use live_kit_voice_agent.Transfer.Fallback.{FallbackPlan, plan_fallback}
use live_kit_voice_agent.Transfer.Dial.{
  DialOutcome, answered, no_answer, busy, rejected, dial_human,
}
use live_kit_voice_agent.Transfer.Dial as Dial
use live_kit_voice_agent.Transfer.Engine.World.{
  Context, stop_audio, abandon, Raise, illegal, other, out_of_fuel, M, ◌>>=◌, ◌>>◌, pure, raise,
  get, modify, await, await_or_raise, handle,
}
use live_kit_voice_agent.Transfer.Engine.Steps.{
  advance, patch, call_state, say_to_caller, announcement, start_hold, dial, isolate_remote_legs,
  bridge_remote_legs, whisper_to_agent, hang_up, fallback_taken, fallback_spoken, fallback_hangup,
  try_advance,
}

-- The reply to the tool call; `started` has the destination that is to be dialled.
pub data Reply : Type 0 where
  not_enabled no_destination illegal_request : Reply
  already_requested : TransferStatus → Reply
  started : TransferDestinationInfo → Reply

-- `_DIAL_TO_STATUS`, with no entry for an answered call.
unfoldable pub dial_to_status : DialOutcome → Option TransferStatus
dial_to_status answered = none
dial_to_status no_answer = some agent_no_answer
dial_to_status busy = some agent_busy
dial_to_status rejected = some agent_rejected
dial_to_status Dial.DialOutcome.failed = some Status.TransferStatus.failed

-- Enough rounds for the loop of `_run`.
abbrev pub rounds : ℕ
rounds = 2

module _ (c : Context) where
  -- `_fail`
  unfoldable pub fail : TransferStatus → Option FallbackPlan → M (Unit {0})
  unfolding try_advance say_to_caller hang_up
  fail status plan = do
    try_advance c status (record no_fields { fallback_taken = fallback_taken c plan })
    modify stop_audio
    if is_truthy (fallback_spoken c plan) then say_to_caller c (fallback_spoken c plan) else pure tt
    if fallback_hangup c plan then hang_up c else pure tt

  -- `_bridge`
  unfoldable pub bridge : ℕ → M (Unit {0})
  unfolding await await_or_raise bridge_remote_legs advance call_state
  bridge whisper_ms = do
    modify stop_audio
    if c.has_room then await_or_raise c else pure tt
    bridge_remote_legs c
    _ ← await c
    modify (λ v. record v { ai_left = true; bridged = true })
    w ← get
    advance c bridged
        (record no_fields { bridged_at = some w.clock; whisper_seconds = some whisper_ms })
    call_state c CallState.human_agent

  -- The end of `_on_answered`.
  unfoldable pub bridge_unless_abandoned : ℕ → M (Unit {0})
  unfolding bridge
  bridge_unless_abandoned whisper_ms = do
    w ← get
    if w.abandoned then modify abandon else bridge whisper_ms

  -- What follows the whisper.
  unfoldable pub after_whisper : TransferDestinationInfo → ℕ → M (Unit {0})
  unfolding fail bridge_unless_abandoned
  after_whisper d whisper_ms = do
    w ← get
    if w.human_left && not w.skip
        then fail agent_rejected
            (plan_fallback agent_rejected c.fallback c.destinations (d.id ∷ []))
        else bridge_unless_abandoned whisper_ms

  -- `_on_answered`
  unfoldable pub on_answered : TransferDestinationInfo → M (Unit {0})
  unfolding await isolate_remote_legs patch advance whisper_to_agent after_whisper
      bridge_unless_abandoned abandon
  on_answered d = do
    w ← get
    if w.abandoned then modify abandon else (do
      isolate_remote_legs c
      _ ← await c
      patch c (record no_fields { summary = some c.summary_fields })
      advance c whispering_summary
          (record no_fields { agent_answered_at = some w.clock; summary = some c.summary_fields })
      if d.whisper_summary
          then (whisper_to_agent c >>= λ whisper_ms. after_whisper d whisper_ms)
          else bridge_unless_abandoned 0)

  -- The plan after a dial that failed: to dial on, or to fail.
  unfoldable pub follow_plan :
      (TransferDestinationInfo → M (Unit {0}))
      → TransferStatus
      → FallbackPlan
      → Option TransferDestinationInfo
      → M (Unit {0})
  unfolding fail
  follow_plan dial_on trigger p none = fail trigger (some p)
  follow_plan dial_on trigger p (some d) = dial_on d

  unfoldable pub fall_back :
      (TransferDestinationInfo → M (Unit {0})) → TransferStatus → Option FallbackPlan → M (Unit {0})
  unfolding follow_plan
  fall_back dial_on trigger none = fail trigger none
  fall_back dial_on trigger (some p) = follow_plan dial_on trigger p p.destination

  unfoldable pub after_failed_dial :
      (TransferDestinationInfo → M (Unit {0})) → TransferStatus → M (Unit {0})
  unfolding fall_back
  after_failed_dial dial_on trigger = do
    w ← get
    fall_back dial_on trigger (plan_fallback trigger c.fallback c.destinations w.tried)

  unfoldable pub after_dial :
      (TransferDestinationInfo → M (Unit {0}))
      → TransferDestinationInfo
      → Option TransferStatus
      → M (Unit {0})
  unfolding on_answered after_failed_dial
  after_dial dial_on d none = on_answered d
  after_dial dial_on d (some trigger) = after_failed_dial dial_on trigger

  -- The write at the head of a round: the first advances the status, the others patch the row.
  unfoldable pub note_dial : Bool → TransferDestinationInfo → M (Unit {0})
  unfolding advance patch
  note_dial first d = do
    w ← get
    let f = record no_fields { destination_id = some d.id; agent_dialed_at = some w.clock }
    if first then advance c dialing_agent f else patch c f

  -- The `while` of `_run`.
  unfoldable pub dial_loop : ℕ → Bool → TransferDestinationInfo → M (Unit {0})
  unfolding note_dial dial after_dial dial_to_status
  dial_loop zero first d = λ w. (out_of_fuel, w)
  dial_loop (suc n) first d =
      modify (λ v. record v { tried = d.id ∷ v.tried })
      >> note_dial first d
      >> (dial c d >>= λ outcome. after_dial (dial_loop n false) d (dial_to_status outcome))

  -- The body of the `try` of `_run`.
  unfoldable pub run_body : TransferDestinationInfo → M (Unit {0})
  unfolding advance say_to_caller start_hold dial_loop announcement
  run_body d = do
    w ← get
    modify (λ v. record v { tried = [] })
    advance c announcing (record no_fields { announcement_started_at = some w.clock })
    say_to_caller c (announcement c)
    start_hold c
    dial_loop rounds true d

  -- The handler of `_run`.
  unfoldable pub recover : Raise → M (Unit {0})
  unfolding fail
  recover r = do
    w ← get
    fail Status.TransferStatus.failed
        (plan_fallback Status.TransferStatus.failed c.fallback c.destinations w.tried)

  -- `_run`
  unfoldable pub run : TransferDestinationInfo → M (Unit {0})
  unfolding run_body recover
  run d w = handle (run_body d w) recover

  abbrev pub ignore_illegal_request : Raise → M Reply
  ignore_illegal_request illegal = pure illegal_request
  ignore_illegal_request other = raise other

  -- The part of `request` that follows the resolution of the destination.
  unfoldable pub begin_transfer : TransferDestinationInfo → M Reply
  unfolding advance call_state
  begin_transfer d w =
      handle
        ((advance c requested (record no_fields { destination_id = some d.id }) >> pure (started d))
          w)
        ignore_illegal_request

  -- The part of `request` that follows the write of `REQUESTED`.
  unfoldable pub after_begin : Reply → M Reply
  unfolding call_state
  after_begin (started d) = do
    call_state c CallState.transferring
    modify (λ v. record v { dtmf_bound = v.dtmf_bound || c.has_room })
    pure (started d)
  after_begin reply = pure reply

  -- `request`, up to the task that it creates.
  unfoldable pub request : Option Text → M Reply
  unfolding begin_transfer after_begin
  request name = do
    w ← get
    if not c.enabled
        then pure not_enabled
        else if not (is_same w.status not_requested)
        then pure (already_requested w.status)
        else elim (resolve_destination c.destinations name none) [
          | none ↦ pure no_destination
          | some d ↦ begin_transfer d >>= after_begin
        ]

  -- The request and the task.
  unfoldable pub transfer : Option Text → M (Unit {0})
  unfolding request run ◌>>=◌ ◌>>◌ pure raise get modify
  transfer name = request name >>= λ reply. elim reply [ started d ↦ run d | _ ↦ pure tt ]
