-- ===== src/Transfer/Destinations.antt =====
-- services/ai-agent-worker/worker/transfer/destinations.py: the destinations frozen onto a call, and
-- the choice of one. Identifiers are numbers, of which the program reads only equality.
pub mod Choice
use live_kit_voice_agent.Prelude.{
  ℕ, ◌≡◌, Bool, true, false, ◌||◌, Option, none, some, List, [], ◌∷◌, ◌==◌, if◌then◌else◌, coalesce,
  find, head?,
}
use live_kit_voice_agent.Prelude.Text.{Text, text_eq, contains, strip, lower, is_truthy}

pub data TransferDestinationKind : Type 0 where
  sip_extension pbx_extension pbx_queue external_number sip_uri : TransferDestinationKind

pub record TransferDestinationInfo : Type 0 where
  pub id : ℕ
  pub name : Text
  pub kind : TransferDestinationKind
  pub target : Text
  pub pbx_id : Option ℕ
  pub sip_trunk_id : Option ℕ
  pub livekit_trunk_id : Option Text
  pub whisper_summary : Bool
  pub ring_timeout_seconds : ℕ

abbrev pub has_id : ℕ → TransferDestinationInfo → Bool
has_id i d = d.id == i

abbrev pub has_name : Text → TransferDestinationInfo → Bool
has_name wanted d = text_eq (lower d.name) wanted

abbrev pub mentions : Text → TransferDestinationInfo → Bool
mentions wanted d = contains (lower d.name) wanted || contains (lower d.target) wanted

-- The lookups by id and by name, each skipped where the argument is not given.
unfoldable pub by_id : List TransferDestinationInfo → Option ℕ → Option TransferDestinationInfo
by_id ds none = none
by_id ds (some i) = find (has_id i) ds

unfoldable pub by_name : List TransferDestinationInfo → Option Text → Option TransferDestinationInfo
by_name ds none = none
by_name ds (some name) =
    if is_truthy name
    then coalesce (find (has_name (lower (strip name))) ds)
        (find (mentions (lower (strip name))) ds)
    else none

unfoldable pub resolve_destination :
    List TransferDestinationInfo → Option Text → Option ℕ → Option TransferDestinationInfo
unfolding by_id by_name
resolve_destination ds name destination_id =
    coalesce (by_id ds destination_id) (coalesce (by_name ds name) (head? ds))
