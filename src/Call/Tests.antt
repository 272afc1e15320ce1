-- ===== src/Call/Tests.antt =====
-- A call that is answered, talks, is handed to a human and ends, and each theorem at that call.
use live_kit_voice_agent.Prelude.{
  ◌+◌, ◌≤◌, ◌≡◌, refl, true, false, none, some, List, [], ◌∷◌, arith,
}
use live_kit_voice_agent.Prelude.Text.{text}
use live_kit_voice_agent.Call.State.{
  CallState, answered, ai_connected, in_progress, transferring, human_agent, completed, failed,
  is_allowed,
}
use live_kit_voice_agent.Call.Tracker.{
  Tracker, CallRow, Request, Operation, move, note, transition, run, elapsed_since, apply,
}
use live_kit_voice_agent.Call.Tracker.History.{changes, replay, IsRecorded, run-IsRecorded}
use live_kit_voice_agent.Call.Tracker.Ending.{run_ended, transition-failed, changes-le}

abbrev answered_row : CallRow
answered_row = record {
  state = answered;
  hangup_reason = none;
  failure_detail = none;
  start_time = some 100;
  end_time = none;
  duration_seconds = none;
  updated_at = 100;
}

abbrev fresh : Tracker
fresh = record { state = answered; row = answered_row; events = [] }

abbrev to : CallState → Request
to s = record { to_state = s; hangup_reason = none; detail = none; payload = text "{}" }

-- The third request is illegal, and the database refuses the fifth.
abbrev whole_call : List Operation
whole_call =
    move (to ai_connected) 101 true
    ∷ move (to in_progress) 102 true
    ∷ move (to human_agent) 103 true
    ∷ note (text "provider_latency") (text "{}") 104 true
    ∷ move (to transferring) 105 false
    ∷ move (to transferring) 106 true
    ∷ move (to human_agent) 120 true
    ∷ move (to completed) 190 true
    ∷ []

whole_call_ends :
    ((run fresh whole_call).state ≡ completed)
    × (changes (run fresh whole_call).events ≡ 5)
    × ((run fresh whole_call).row.duration_seconds ≡ some 90)
unfolding run changes apply is_allowed
whole_call_ends = (refl, refl, refl)

fresh-IsRecorded : IsRecorded answered fresh
unfolding replay changes
fresh-IsRecorded = record {
  replayed = refl;
  agrees = refl;
  ended = refl;
  timed = refl;
  advanced = omega arith;
}

run-IsRecorded_example : IsRecorded answered (run fresh whole_call)
run-IsRecorded_example = run-IsRecorded answered fresh whole_call fresh-IsRecorded

abbrev over : Tracker
over = record { state = completed; row = record answered_row { state = completed }; events = [] }

run_ended_example :
    ((run over whole_call).state ≡ completed) × ((run over whole_call).row ≡ over.row)
run_ended_example = run_ended over whole_call refl

transition-failed_example :
    let (tr', error) = transition fresh (to failed) 130 true in
    (error ≡ none)
    × (tr'.state ≡ failed)
    × (tr'.row.state ≡ failed)
    × (tr'.row.end_time ≡ some 130)
    × (tr'.row.duration_seconds ≡ some (elapsed_since (some 100) 130))
transition-failed_example = transition-failed fresh (to failed) 130 refl refl

changes-le_example : changes (run fresh whole_call).events + 2 ≤ 7
changes-le_example = changes-le answered fresh whole_call fresh-IsRecorded
