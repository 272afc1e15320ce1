-- ===== src/Call/Tracker.antt =====
-- `CallStateTracker` of services/ai-agent-worker/worker/call_state.py with the rows of `calls` and
-- `call_events` that it writes. Times are whole seconds, and each operation takes the time and
-- whether the database accepts its transaction; a transaction that fails changes nothing.
pub mod History
pub mod Ending
use live_kit_voice_agent.Prelude.{
  ℕ, ◌-◌, Bool, true, false, not, Option, none, some, List, [], ◌∷◌, ◌++◌, if◌then◌else◌, coalesce,
}
use live_kit_voice_agent.Prelude.Text.{Text, text}
use live_kit_voice_agent.Call.State.{CallState, HangupReason, is_same, is_terminal, is_allowed}

pub record CallRow : Type 0 where
  pub state : CallState
  pub hangup_reason : Option HangupReason
  pub failure_detail : Option Text
  pub start_time : Option ℕ
  pub end_time : Option ℕ
  pub duration_seconds : Option ℕ
  pub updated_at : ℕ

pub record CallEvent : Type 0 where
  pub event_type : Text
  pub from_state : Option CallState
  pub to_state : Option CallState
  pub occurred_at : ℕ
  pub payload : Text

-- The tracker's own state, and the database's rows for this call, the oldest event first.
pub record Tracker : Type 0 where
  pub state : CallState
  pub row : CallRow
  pub events : List CallEvent

pub data Error : Type 0 where
  illegal_transition database_error : Error

-- `GREATEST(0, EXTRACT(EPOCH FROM (now - start_time))::int)`, where GREATEST passes over a NULL.
abbrev pub elapsed_since : Option ℕ → ℕ → ℕ
elapsed_since none now = 0
elapsed_since (some start) now = now - start

pub record Request : Type 0 where
  pub to_state : CallState
  pub hangup_reason : Option HangupReason
  pub detail : Option Text
  pub payload : Text

-- The UPDATE of `transition`.
unfoldable pub update_row : CallRow → Request → ℕ → CallRow
update_row row q now =
    let terminal = is_terminal q.to_state in
    record {
      state = q.to_state;
      hangup_reason = coalesce q.hangup_reason row.hangup_reason;
      failure_detail = coalesce q.detail row.failure_detail;
      start_time = row.start_time;
      end_time = if terminal then some now else row.end_time;
      duration_seconds =
          if terminal then some (elapsed_since row.start_time now) else row.duration_seconds;
      updated_at = now;
    }

-- `_insert_event`
unfoldable pub insert_event :
    List CallEvent → Text → ℕ → Text → Option CallState → Option CallState → List CallEvent
insert_event events event_type now payload from_state to_state =
    events
    ++ record {
      event_type = event_type;
      from_state = from_state;
      to_state = to_state;
      occurred_at = now;
      payload = payload;
    }
      ∷ []

abbrev pub state_changed : Text
state_changed = text "state_changed"

unfoldable pub transition : Tracker → Request → ℕ → Bool → Tracker × Option Error
unfolding update_row insert_event
transition tr q now db_accepts =
    if is_same tr.state q.to_state
    then (tr, none)
    else if not (is_allowed tr.state q.to_state)
    then (tr, some illegal_transition)
    else if not db_accepts
    then (tr, some database_error)
    else (
      record {
        state = q.to_state;
        row = update_row tr.row q now;
        events =
            insert_event tr.events state_changed now q.payload (some tr.state) (some q.to_state);
      },
      none,
    )

unfoldable pub record_event : Tracker → Text → Text → ℕ → Bool → Tracker × Option Error
unfolding insert_event
record_event tr event_type payload now db_accepts =
    if not db_accepts
    then (tr, some database_error)
    else (record tr { events = insert_event tr.events event_type now payload none none }, none)

-- What a call asks of its tracker, with the time and the database's answer.
pub data Operation : Type 0 where
  move : Request → ℕ → Bool → Operation
  note : Text → Text → ℕ → Bool → Operation

unfoldable pub apply : Tracker → Operation → Tracker
unfolding transition record_event
apply tr (move q now db_accepts) = (transition tr q now db_accepts).0
apply tr (note event_type payload now db_accepts) =
    (record_event tr event_type payload now db_accepts).0

unfoldable pub run : Tracker → List Operation → Tracker
run tr [] = tr
run tr (op ∷ ops) = run (apply tr op) ops
