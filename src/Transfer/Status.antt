-- ===== src/Transfer/Status.antt =====
-- `TransferStatus` with its transitions (services/shared/shared/models/enums.py) and the writes of
-- services/ai-agent-worker/worker/transfer/status.py to the `transfer_*` columns of a call's row.
use live_kit_voice_agent.Prelude.{
  ℕ, ◌≡◌, ◌↔◌, Bool, true, Option, none, List, [], ◌∷◌, ◌==◌, any, arith, coalesce,
}
use live_kit_voice_agent.Prelude.Text.{Text}
use live_kit_voice_agent.Models.{FallbackAction}

pub data TransferStatus : Type 0 where
  not_requested requested announcing dialing_agent whispering_summary bridged : TransferStatus
  agent_no_answer agent_busy agent_rejected failed abandoned : TransferStatus

abbrev pub ordinal : TransferStatus → ℕ
ordinal not_requested = 0
ordinal requested = 1
ordinal announcing = 2
ordinal dialing_agent = 3
ordinal whispering_summary = 4
ordinal bridged = 5
ordinal agent_no_answer = 6
ordinal agent_busy = 7
ordinal agent_rejected = 8
ordinal failed = 9
ordinal abandoned = 10

-- `a is b`
abbrev pub is_same : TransferStatus → TransferStatus → Bool
is_same a b = ordinal a == ordinal b

pub is_same_iff : (a b : TransferStatus) → (is_same a b ≡ true) ↔ (a ≡ b)
is_same_iff a b = ground arith

-- `status in {…}`
abbrev pub is_in : TransferStatus → List TransferStatus → Bool
is_in s = any (is_same s)

abbrev pub transfer_fallback_triggers : List TransferStatus
transfer_fallback_triggers = agent_no_answer ∷ agent_busy ∷ agent_rejected ∷ failed ∷ []

abbrev pub transfer_status_transitions : TransferStatus → List TransferStatus
transfer_status_transitions not_requested = requested ∷ []
transfer_status_transitions requested = announcing ∷ failed ∷ abandoned ∷ []
transfer_status_transitions announcing = dialing_agent ∷ failed ∷ abandoned ∷ []
transfer_status_transitions dialing_agent =
    whispering_summary ∷ agent_no_answer ∷ agent_busy ∷ agent_rejected ∷ failed ∷ abandoned ∷ []
transfer_status_transitions whispering_summary = bridged ∷ agent_rejected ∷ failed ∷ abandoned ∷ []
transfer_status_transitions _ = []

-- Whether `assert_legal` returns rather than raises.
abbrev pub is_legal : TransferStatus → TransferStatus → Bool
is_legal from to = is_in to (transfer_status_transitions from)

-- The columns of the row.
pub record TransferRow : Type 0 where
  pub status : TransferStatus
  pub destination_id : Option ℕ
  pub announcement_started_at : Option ℕ
  pub agent_dialed_at : Option ℕ
  pub agent_answered_at : Option ℕ
  pub whisper_seconds : Option ℕ
  pub bridged_at : Option ℕ
  pub fallback_taken : Option FallbackAction
  pub summary : Option Text

-- The keyword arguments of `advance` and `patch`.
pub record Fields : Type 0 where
  pub destination_id : Option ℕ
  pub announcement_started_at : Option ℕ
  pub agent_dialed_at : Option ℕ
  pub agent_answered_at : Option ℕ
  pub whisper_seconds : Option ℕ
  pub bridged_at : Option ℕ
  pub fallback_taken : Option FallbackAction
  pub summary : Option Text

-- No keyword argument given.
abbrev pub no_fields : Fields
no_fields = record {
  destination_id = none;
  announcement_started_at = none;
  agent_dialed_at = none;
  agent_answered_at = none;
  whisper_seconds = none;
  bridged_at = none;
  fallback_taken = none;
  summary = none;
}

-- `_UPDATE_SQL`
unfoldable pub update_row : TransferRow → TransferStatus → Fields → TransferRow
update_row row status f = record {
  status = status;
  destination_id = coalesce f.destination_id row.destination_id;
  announcement_started_at = coalesce f.announcement_started_at row.announcement_started_at;
  agent_dialed_at = coalesce f.agent_dialed_at row.agent_dialed_at;
  agent_answered_at = coalesce f.agent_answered_at row.agent_answered_at;
  whisper_seconds = coalesce f.whisper_seconds row.whisper_seconds;
  bridged_at = coalesce f.bridged_at row.bridged_at;
  fallback_taken = coalesce f.fallback_taken row.fallback_taken;
  summary = coalesce f.summary row.summary;
}
