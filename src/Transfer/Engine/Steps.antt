-- ===== src/Transfer/Engine/Steps.antt =====
-- The methods of `WarmTransfer` that `_run` composes. What is said to the caller, dialled, whispered
-- and which requests about the legs succeed is recorded in the world; the audio itself, the SIP headers
-- and the permissions of the local tracks are not modelled.
use live_kit_voice_agent.Prelude.{
  ℕ, zero, suc, ◌*◌, Bool, true, false, not, ◌&&◌, ◌||◌, Option, none, some, ◌∷◌, if◌then◌else◌,
  min, max,
}
use live_kit_voice_agent.Prelude.Text.{Text, text, strip, is_truthy}
use live_kit_voice_agent.Models.{FallbackAction}
use live_kit_voice_agent.Call.State.{CallState, completed, is_terminal}
use live_kit_voice_agent.Call.Tracker.{
  Tracker, Error, transition, illegal_transition, database_error,
}
use live_kit_voice_agent.Transfer.Status.{TransferStatus, Fields, update_row, is_legal}
use live_kit_voice_agent.Transfer.Destinations.{TransferDestinationInfo}
use live_kit_voice_agent.Transfer.Fallback.{FallbackPlan}
use live_kit_voice_agent.Transfer.Dial.{
  DialOutcome, answered, no_answer, busy, rejected, failed, dial_human,
}
use live_kit_voice_agent.Transfer.Engine.World.{
  Context, World, Raise, illegal, other, M, ◌>>=◌, ◌>>◌, pure, raise, get, modify, await,
  await_or_raise, handle,
}

abbrev pub default_announcement : Text
default_announcement = text "Your call is being transferred to a human agent. Please wait."

module _ (c : Context) where
  -- `_advance`: the check, the write with its await, and the assignment to `_status`.
  unfoldable pub advance : TransferStatus → Fields → M (Unit {0})
  unfolding await_or_raise
  advance to f = do
    w ← get
    if not (is_legal w.status to) then raise illegal else pure tt
    await_or_raise c
    modify (λ v. record v { row = update_row v.row to f; status = to })

  -- `patch` with `status=self._status`, which is read before the write's await.
  unfoldable pub patch : Fields → M (Unit {0})
  unfolding await_or_raise
  patch f = do
    w ← get
    await_or_raise c
    modify (λ v. record v { row = update_row v.row w.status f })

  -- What the tracker answers: an illegal transition is skipped, a failed write is raised.
  unfoldable pub record_transition : Tracker × Option Error → M (Unit {0})
  record_transition (new, none) = modify (λ v. record v { tracker = some new })
  record_transition (new, some illegal_transition) = pure tt
  record_transition (new, some database_error) = raise other

  unfoldable pub transition_tracker : CallState → ℕ → Bool → Option Tracker → M (Unit {0})
  unfolding record_transition
  transition_tracker s now db_accepts none = pure tt
  transition_tracker s now db_accepts (some old) = record_transition (
      transition old
        (record { to_state = s; hangup_reason = none; detail = none; payload = text "{}" }) now
        db_accepts)

  -- `_call_state`
  unfoldable pub call_state : CallState → M (Unit {0})
  unfolding await transition_tracker
  call_state s = do t ← await c; w ← get; transition_tracker s w.clock (not t.raises) w.tracker

  -- `_say_to_caller`: on the hold track, which is opened where there is none and can be one.
  unfoldable pub say_to_caller : Text → M (Unit {0})
  unfolding await_or_raise
  say_to_caller t = do
    modify (λ v. record v { hold = v.hold || (c.has_room && c.has_tts) })
    await_or_raise c
    modify (λ v. record v { said = t ∷ v.said })

  -- `(announcement_text or "").strip() or DEFAULT_ANNOUNCEMENT`
  unfoldable pub announcement : Text
  announcement = elim c.announcement_text [
    | none ↦ default_announcement
    | some t ↦ if is_truthy (strip t) then strip t else default_announcement
  ]

  -- `_start_hold`
  unfoldable pub start_hold : M (Unit {0})
  unfolding await_or_raise
  start_hold =
      if not (c.has_room && c.has_tts)
      then pure tt
      else do modify (λ v. record v { hold = true }); await_or_raise c

  abbrev pub is_answered : DialOutcome → Bool
  is_answered answered = true
  is_answered no_answer = false
  is_answered busy = false
  is_answered rejected = false
  is_answered failed = false

  -- `_dial`. A human who answers is in the room, where the legs are subscribed to each other.
  unfoldable pub dial : TransferDestinationInfo → M DialOutcome
  unfolding await
  dial d = do
    modify (λ v. record v { dialled = d.id ∷ v.dialled })
    _ ← await c
    modify (λ v. record v { joined = v.joined || is_answered (dial_human c.livekit d) })
    pure (dial_human c.livekit d)

  -- `isolate_remote_legs`, which returns at once where it finds no caller, and catches the exception of
  -- a request that fails.
  unfoldable pub isolate_remote_legs : M (Unit {0})
  unfolding await
  isolate_remote_legs =
      if c.has_room && c.has_caller
      then (do
        t ← await c
        modify
            (λ v. if t.raises then record v { unisolated = true } else record v { joined = false }))
      else modify (λ v. record v { unisolated = true })

  -- `bridge_remote_legs`, which does the same.
  unfoldable pub bridge_remote_legs : M (Unit {0})
  unfolding await
  bridge_remote_legs =
      if c.has_room && c.has_caller
      then (do t ← await c; modify (λ v. record v { joined = v.joined || not t.raises }))
      else pure tt

  -- `max(5, int(policy.summary_max_seconds or 30))`
  unfoldable pub whisper_limit : ℕ → ℕ
  whisper_limit zero = 30
  whisper_limit (suc n) = max 5 (suc n)

  -- How long the whisper played, in milliseconds: its own report, capped; 0 where it failed; and
  -- 0.1 s where the skip, the human's leaving or the caller's came first.
  unfoldable pub whisper_time : Option ℕ → World → ℕ
  unfolding whisper_limit
  whisper_time (some ms) w = min ms (whisper_limit c.summary_max_seconds * 1000)
  whisper_time none w = if w.skip || w.human_left || w.abandoned then 100 else 0

  -- `_whisper_to_agent`, whose track is stopped at the end and closed by `_stop_audio`.
  unfoldable pub whisper_to_agent : M ℕ
  unfolding await await_or_raise whisper_time
  whisper_to_agent = if not (c.has_room && c.has_tts) then (await c >>= λ _. pure 0) else do
    modify (λ v. record v { whisper = true })
    await_or_raise c
    modify (λ v. record v {
      whispered = c.summary_spoken ∷ v.whispered;
      overheard = v.overheard || v.joined;
    })
    t ← await c
    w ← get
    pure (whisper_time t.played w)

  -- The end of `_hangup`.
  unfoldable pub complete_call : Option Tracker → M (Unit {0})
  unfolding call_state
  complete_call none = pure tt
  complete_call (some old) = if is_terminal old.state then pure tt else call_state completed

  -- `_hangup`
  unfoldable pub hang_up : M (Unit {0})
  unfolding complete_call await
  hang_up = do
    _ ← await c
    modify (λ v. record v { hung_up = true })
    w ← get
    complete_call w.tracker

  -- What `_fail` takes from the plan.
  abbrev pub fallback_taken : Option FallbackPlan → Option FallbackAction
  fallback_taken none = none
  fallback_taken (some p) = some p.action

  abbrev pub fallback_spoken : Option FallbackPlan → Text
  fallback_spoken none = default_announcement
  fallback_spoken (some p) = p.spoken

  abbrev pub fallback_hangup : Option FallbackPlan → Bool
  fallback_hangup none = true
  fallback_hangup (some p) = p.hangup

  -- `try: await self._advance(…) except IllegalTransferTransition: …`, where the handler only logs.
  abbrev pub ignore_illegal : Raise → M (Unit {0})
  ignore_illegal illegal = pure tt
  ignore_illegal other = raise other

  unfoldable pub try_advance : TransferStatus → Fields → M (Unit {0})
  unfolding advance
  try_advance to f w = handle (advance to f w) ignore_illegal
