-- ===== src/Call/State.antt =====
-- `CallState`, `TERMINAL_CALL_STATES`, `CALL_STATE_TRANSITIONS` and `HangupReason` of
-- services/shared/shared/models/enums.py.
use live_kit_voice_agent.Prelude.{
  ℕ, ◌≤◌, ◌<◌, ◌≡◌, ◌↔◌, Bool, true, false, List, [], ◌∷◌, ◌==◌, any, arith,
}

pub data CallState : Type 0 where
  new ringing answered ai_connected in_progress transferring human_agent : CallState
  completed failed timeout cancelled busy no_answer : CallState

pub data HangupReason : Type 0 where
  caller_hangup agent_hangup transferred max_duration : HangupReason
  silence_timeout provider_failure limit_exceeded system_error : HangupReason

-- The position in the enumeration, by which states are compared.
abbrev pub ordinal : CallState → ℕ
ordinal new = 0
ordinal ringing = 1
ordinal answered = 2
ordinal ai_connected = 3
ordinal in_progress = 4
ordinal transferring = 5
ordinal human_agent = 6
ordinal completed = 7
ordinal failed = 8
ordinal timeout = 9
ordinal cancelled = 10
ordinal busy = 11
ordinal no_answer = 12

-- `a is b`
abbrev pub is_same : CallState → CallState → Bool
is_same a b = ordinal a == ordinal b

pub is_same_iff : (a b : CallState) → (is_same a b ≡ true) ↔ (a ≡ b)
is_same_iff a b = ground arith

abbrev pub terminal_call_states : List CallState
terminal_call_states = completed ∷ failed ∷ timeout ∷ cancelled ∷ busy ∷ no_answer ∷ []

abbrev pub is_terminal : CallState → Bool
is_terminal s = any (is_same s) terminal_call_states

-- A state that is no key of the dictionary has no successor.
abbrev pub call_state_transitions : CallState → List CallState
call_state_transitions new = ringing ∷ failed ∷ cancelled ∷ busy ∷ []
call_state_transitions ringing = answered ∷ no_answer ∷ busy ∷ cancelled ∷ failed ∷ timeout ∷ []
call_state_transitions answered = ai_connected ∷ failed ∷ completed ∷ timeout ∷ []
call_state_transitions ai_connected = in_progress ∷ failed ∷ completed ∷ timeout ∷ []
call_state_transitions in_progress = transferring ∷ completed ∷ failed ∷ timeout ∷ []
call_state_transitions transferring = human_agent ∷ completed ∷ failed ∷ timeout ∷ []
call_state_transitions human_agent = completed ∷ failed ∷ []
call_state_transitions _ = []

unfoldable pub is_allowed : CallState → CallState → Bool
is_allowed from to = any (is_same to) (call_state_transitions from)

-- How far a call has come. Every legal transition goes further.
abbrev pub progress : CallState → ℕ
progress new = 0
progress ringing = 1
progress answered = 2
progress ai_connected = 3
progress in_progress = 4
progress transferring = 5
progress human_agent = 6
progress _ = 7

pub progress-is_allowed :
    (from to : CallState) → is_allowed from to ≡ true → progress from < progress to
unfolding is_allowed
progress-is_allowed from to h = ground arith

pub progress-le : (s : CallState) → progress s ≤ 7
progress-le s = ground arith

-- A terminal state has no successor, and any other can fail.
pub is_allowed_of_is_terminal :
    (from to : CallState) → is_terminal from ≡ true → is_allowed from to ≡ false
unfolding is_allowed
is_allowed_of_is_terminal from to h = ground arith

pub is_allowed-failed :
    (from : CallState) → is_terminal from ≡ false → is_allowed from failed ≡ true
unfolding is_allowed
is_allowed-failed from h = ground arith
