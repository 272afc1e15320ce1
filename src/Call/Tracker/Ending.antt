-- ===== src/Call/Tracker/Ending.antt =====
-- How a call ends: the terminal states are final, every live call can be failed, and the number of
-- changes of state is bounded.
use live_kit_voice_agent.Prelude.{
  ℕ, ◌+◌, ◌≤◌, ◌≡◌, ◌≢◌, refl, ◌∙◌, Bool, true, false, none, some, List, [], ◌∷◌, arith,
}
use live_kit_voice_agent.Call.State.{
  CallState, is_same_iff, is_terminal, failed, progress, progress-le, is_allowed_of_is_terminal,
  is_allowed-failed,
}
use live_kit_voice_agent.Call.Tracker.{
  Tracker, Request, illegal_transition, Operation, move, note, transition, record_event, apply, run,
  elapsed_since,
}
use live_kit_voice_agent.Call.Tracker.History.{changes, IsRecorded, run-IsRecorded}

-- In a terminal state a request for any other state is refused as an illegal transition, and the
-- tracker and its rows stay as they were, whether or not the database would have accepted it.
pub transition_ended :
    (tr : Tracker) (q : Request) (now : ℕ) (db_accepts : Bool)
    → is_terminal tr.state ≡ true
    → q.to_state ≢ tr.state
    → transition tr q now db_accepts ≡ (tr, some illegal_transition)
unfolding transition
transition_ended tr q now db_accepts h other =
    ground (arith, is_allowed_of_is_terminal tr.state q.to_state h, is_same_iff tr.state q.to_state)

transition_ended_same :
    (tr : Tracker) (q : Request) (now : ℕ) (db_accepts : Bool)
    → is_terminal tr.state ≡ true
    → (transition tr q now db_accepts).0 ≡ tr
unfolding transition
transition_ended_same tr q now db_accepts h =
    ground (arith, is_allowed_of_is_terminal tr.state q.to_state h)

apply_ended :
    (tr : Tracker) (op : Operation)
    → is_terminal tr.state ≡ true
    → ((apply tr op).state ≡ tr.state) × ((apply tr op).row ≡ tr.row)
unfolding apply record_event
apply_ended tr (move q now db_accepts) h =
    ground (arith, transition_ended_same tr q now db_accepts h)
apply_ended tr (note event_type payload now db_accepts) h = ground arith

-- Once a call is in a terminal state, nothing that is asked of its tracker changes its state or
-- its row.
pub run_ended :
    (tr : Tracker) (ops : List Operation)
    → is_terminal tr.state ≡ true
    → ((run tr ops).state ≡ tr.state) × ((run tr ops).row ≡ tr.row)
unfolding run
run_ended tr [] h = (refl, refl)
run_ended tr (op ∷ ops) h =
    let (same_state, same_row) = apply_ended tr op h in
    let (later_state, later_row) = run_ended (apply tr op) ops (ground arith) in
    (later_state ∙ same_state, later_row ∙ same_row)

-- Every call that is not in a terminal state can be failed: if the database accepts it, the request
-- is carried out, and the row has the end time and a duration.
pub transition-failed :
    (tr : Tracker) (q : Request) (now : ℕ)
    → is_terminal tr.state ≡ false
    → q.to_state ≡ failed
    → let (tr', error) = transition tr q now true in
      (error ≡ none)
      × (tr'.state ≡ failed)
      × (tr'.row.state ≡ failed)
      × (tr'.row.end_time ≡ some now)
      × (tr'.row.duration_seconds ≡ some (elapsed_since tr.row.start_time now))
unfolding transition
transition-failed tr q now h e =
    ground (arith, is_allowed-failed tr.state h, is_same_iff tr.state failed)

-- A call whose record is true and that began in `s` changes its state at most 7 times, less the
-- steps that `s` has behind it, whatever is asked of its tracker.
pub changes-le :
    (s : CallState) (tr : Tracker) (ops : List Operation)
    → IsRecorded s tr
    → changes (run tr ops).events + progress s ≤ 7
changes-le s tr ops r =
    omega (arith, (run-IsRecorded s tr ops r).advanced, progress-le (run tr ops).state)
