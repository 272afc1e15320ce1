-- ===== src/Call/Tracker/History.antt =====
-- What the event log and the row of a call say of its state, whatever is asked of the tracker.
use live_kit_voice_agent.Prelude.{
  ℕ, suc, ◌+◌, ◌≤◌, ◌≡◌, refl, ◌∙◌, Bool, true, false, not, ◌&&◌, Option, none, some, List, [], ◌∷◌,
  ◌++◌, if◌then◌else◌, is_some, arith, Bool-cases, ◌⊎◌, inl, inr,
}
use live_kit_voice_agent.Prelude.Text.{Text}
use live_kit_voice_agent.Call.State.{
  CallState, is_same, is_same_iff, is_terminal, is_allowed, progress, progress-is_allowed,
  is_allowed_of_is_terminal,
}
use live_kit_voice_agent.Call.Tracker.{
  CallEvent, CallRow, Tracker, Error, update_row, elapsed_since, illegal_transition, database_error,
  Request, Operation, move, note, transition, state_changed, record_event, apply, run,
}

-- One event read back: a change of state must be legal and start from the state at hand, and any
-- other event changes nothing.
unfoldable pub follow : CallState → CallEvent → Option CallState
follow s e = elim e.to_state [
  | none ↦ some s
  | some to ↦ elim e.from_state [
    | none ↦ none
    | some from ↦ if is_same from s && is_allowed from to then some to else none
  ]
]

-- The state that a log leads to, or nothing where a step of it is impossible.
unfoldable pub replay : CallState → List CallEvent → Option CallState
replay s [] = some s
replay s (e ∷ es) = elim (follow s e) [ none ↦ none | some t ↦ replay t es ]

-- How many of the events change the state.
unfoldable pub changes : List CallEvent → ℕ
changes [] = 0
changes (e ∷ es) = if is_some e.to_state then suc (changes es) else changes es

replay-append :
    (s : CallState) (es : List CallEvent) (e : CallEvent) {t : CallState}
    → replay s es ≡ some t
    → replay s (es ++ e ∷ []) ≡ follow t e
unfolding replay
replay-append s [] e h = ground arith
replay-append s (d ∷ es) e h = elim (follow-cases (follow s d)) [
  | inl stuck ↦ ground arith
  | inr (u, next) ↦ rw (next, replay) (replay-append u es e (rw (next, replay) at h))
]
  where
    follow-cases : (o : Option CallState) → (o ≡ none) ⊎ ((u : CallState) × (o ≡ some u))
    follow-cases none = inl refl
    follow-cases (some u) = inr (u, refl)

changes-append :
    (es : List CallEvent) (e : CallEvent) → changes (es ++ e ∷ []) ≡ changes es + changes (e ∷ [])
unfolding changes
changes-append [] e = ground arith
changes-append (d ∷ es) e = ground (arith, changes-append es e)

-- The log of a call that began in `s` accounts for the tracker's state, and the row agrees.
pub record IsRecorded (s : CallState) (tr : Tracker) : Type 0 where
  pub replayed : replay s tr.events ≡ some tr.state
  pub agrees : tr.row.state ≡ tr.state
  pub ended : is_some tr.row.end_time ≡ is_terminal tr.state
  pub timed : is_some tr.row.duration_seconds ≡ is_terminal tr.state
  pub advanced : changes tr.events + progress s ≤ progress tr.state

-- What a legal transition makes of a tracker where the database accepts it.
abbrev pub changed : Tracker → Request → ℕ → CallEvent
changed tr q now = record {
  event_type = state_changed;
  from_state = some tr.state;
  to_state = some q.to_state;
  occurred_at = now;
  payload = q.payload;
}

abbrev pub moved : Tracker → Request → ℕ → Tracker
unfolding update_row
moved tr q now = record {
  state = q.to_state;
  row = update_row tr.row q now;
  events = tr.events ++ changed tr q now ∷ [];
}

follow-changed :
    (tr : Tracker) (q : Request) (now : ℕ)
    → is_allowed tr.state q.to_state ≡ true
    → follow tr.state (changed tr q now) ≡ some q.to_state
unfolding follow
follow-changed tr q now h = let e = (is_same_iff tr.state tr.state).1 refl in rw (e, h) refl

if-is_some {ℓ} :
    {A : Type ℓ} (b : Bool) (x : A) (o : Option A)
    → is_some o ≡ false
    → is_some (if b then some x else o) ≡ b
if-is_some true x o h = refl
if-is_some false x o h = h

changes-changed : (tr : Tracker) (q : Request) (now : ℕ) → changes (changed tr q now ∷ []) ≡ 1
unfolding changes
changes-changed tr q now = refl

-- The answer of `transition` by its three tests, from the tracker and what a change makes of it.
abbrev pub answer_by : Tracker → Tracker → Bool → Bool → Bool → Tracker × Option Error
answer_by old new same allowed db_accepts =
    if same
    then (old, none)
    else if not allowed
    then (old, some illegal_transition)
    else if not db_accepts
    then (old, some database_error)
    else (new, none)

update_row_ended :
    (row : CallRow) (q : Request) (now : ℕ)
    → is_some row.end_time ≡ false
    → is_some (update_row row q now).end_time ≡ is_terminal q.to_state
unfolding update_row
update_row_ended row q now h = if-is_some (is_terminal q.to_state) now row.end_time h

update_row_timed :
    (row : CallRow) (q : Request) (now : ℕ)
    → is_some row.duration_seconds ≡ false
    → is_some (update_row row q now).duration_seconds ≡ is_terminal q.to_state
unfolding update_row
update_row_timed row q now h =
    if-is_some (is_terminal q.to_state) (elapsed_since row.start_time now) row.duration_seconds h

module _ (s : CallState) {tr : Tracker} (r : IsRecorded s tr) where
  underway : (q : Request) → is_allowed tr.state q.to_state ≡ true → is_terminal tr.state ≡ false
  underway q h = elim (Bool-cases (is_terminal tr.state)) [
    | inl over ↦ let e = is_allowed_of_is_terminal tr.state q.to_state over in cc
    | inr under ↦ under
  ]

  moved-IsRecorded :
      (q : Request) (now : ℕ)
      → is_allowed tr.state q.to_state ≡ true
      → IsRecorded s (moved tr q now)
  unfolding update_row
  moved-IsRecorded q now h = record {
    replayed = replay-append s tr.events (changed tr q now) r.replayed ∙ follow-changed tr q now h;
    agrees = refl;
    ended = update_row_ended tr.row q now (r.ended ∙ underway q h);
    timed = update_row_timed tr.row q now (r.timed ∙ underway q h);
    advanced =
        let counted = changes-append tr.events (changed tr q now) in
        let before = r.advanced in
        let after = progress-is_allowed tr.state q.to_state h in
        let one = changes-changed tr q now in omega (arith, counted, before, after, one);
  }

  by_tests :
      (q : Request) (now : ℕ) (same allowed db_accepts : Bool)
      → is_allowed tr.state q.to_state ≡ allowed
      → IsRecorded s (answer_by tr (moved tr q now) same allowed db_accepts).0
  by_tests q now true allowed db_accepts h = r
  by_tests q now false false db_accepts h = r
  by_tests q now false true false h = r
  by_tests q now false true true h = moved-IsRecorded q now h

  transition-IsRecorded :
      (q : Request) (now : ℕ) (db_accepts : Bool) → IsRecorded s (transition tr q now db_accepts).0
  unfolding transition
  transition-IsRecorded q now db_accepts =
      by_tests q now (is_same tr.state q.to_state) (is_allowed tr.state q.to_state) db_accepts refl

  record_event-IsRecorded :
      (event_type payload : Text) (now : ℕ) (db_accepts : Bool)
      → IsRecorded s (record_event tr event_type payload now db_accepts).0
  unfolding record_event changes follow
  record_event-IsRecorded event_type payload now db_accepts = ground (
    arith,
    replay-append s tr.events
        (record {
          event_type = event_type;
          from_state = none;
          to_state = none;
          occurred_at = now;
          payload = payload;
        })
        r.replayed,
    changes-append tr.events (record {
      event_type = event_type;
      from_state = none;
      to_state = none;
      occurred_at = now;
      payload = payload;
    }),
  )

-- Every operation on the tracker keeps the record of the call true.
apply-IsRecorded :
    (s : CallState) (tr : Tracker) (op : Operation) → IsRecorded s tr → IsRecorded s (apply tr op)
unfolding apply
apply-IsRecorded s tr (move q now db_accepts) r = transition-IsRecorded s r q now db_accepts
apply-IsRecorded s tr (note event_type payload now db_accepts) r =
    record_event-IsRecorded s r event_type payload now db_accepts

-- Whatever is asked of a tracker whose record is true, and whichever transactions fail, the event
-- log read back from the first state is a chain of legal transitions to the tracker's state, the
-- row has that state, and it has an end time and a duration exactly if that state is terminal.
pub run-IsRecorded :
    (s : CallState) (tr : Tracker) (ops : List Operation)
    → IsRecorded s tr
    → IsRecorded s (run tr ops)
unfolding run
run-IsRecorded s tr [] r = r
run-IsRecorded s tr (op ∷ ops) r = run-IsRecorded s (apply tr op) ops (apply-IsRecorded s tr op r)
