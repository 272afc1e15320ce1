-- ===== src/Sync/Trunks.antt =====
-- `accepted_numbers`, `apply_trunk_sync`, `apply_dispatch_rule_sync` and `_mark_failed` of
-- services/configuration-api/app/livekit/jobs.py, and `_numbers_by_trunk` and `_trunk_ids_by_rule` of
-- drift.py beside it. Reading the password is an argument.
use live_kit_voice_agent.Prelude.{
  ℕ, ◌+◌, Bool, true, false, not, ◌&&◌, Option, none, some, List, [], ◌∷◌, if◌then◌else◌, find,
  take, ◌==◌,
}
use live_kit_voice_agent.Prelude.Sorting.{sorted}
use live_kit_voice_agent.Prelude.Text.{Text, text_le}
use live_kit_voice_agent.Models.{ResourceStatus, is_active}
use live_kit_voice_agent.Drift.Compare.{
  Row, SipTrunk, DispatchRule, synced, pending, failed, Reason, livekit_error, shared_room,
  no_trunk, recorded_id,
}
use live_kit_voice_agent.Sync.LiveKit.{
  TrunkInfo, RuleInfo, Reply, answers, raises, SipService, trunk_info, rule_info,
}

pub record PhoneNumber : Type 0 where
  pub number : Text
  pub sip_trunk_id : Option ℕ
  pub status : ResourceStatus

abbrev pub is_on : ℕ → Option ℕ → Bool
is_on i none = false
is_on i (some j) = j == i

abbrev pub active_numbers : ℕ → List PhoneNumber → List Text
active_numbers i [] = []
active_numbers i (n ∷ ns) =
    if is_on i n.sip_trunk_id && is_active n.status
    then n.number ∷ active_numbers i ns
    else active_numbers i ns

-- `accepted_numbers`
unfoldable pub accepted_numbers : ℕ → List PhoneNumber → List Text
accepted_numbers i ns = sorted text_le (active_numbers i ns)

-- `_numbers_by_trunk(…).get(trunk_id, [])`
unfoldable pub numbers_by_trunk : ℕ → List PhoneNumber → List Text
numbers_by_trunk i [] = []
numbers_by_trunk i (n ∷ ns) =
    let rest = numbers_by_trunk i ns in if is_on i n.sip_trunk_id then n.number ∷ rest else rest

-- A row of `sip_trunks`.
pub record Trunk : Type 0 where
  pub columns : SipTrunk
  pub media_encryption_required : Bool
  pub sync_attempts : ℕ

abbrev pub set_row : Row → Trunk → Trunk
set_row r t = record t { columns = record t.columns { row = r } }

-- `_mark_failed`
abbrev pub mark_failed : Reason → Trunk → Trunk
mark_failed e t =
    record (set_row (record t.columns.row { sync_status = failed; sync_error = some e }) t) {
      sync_attempts = t.sync_attempts + 1;
    }

-- What a success writes.
abbrev pub mark_synced : ℕ → Text → Trunk → Trunk
mark_synced now i t =
    record (set_row
      (record t.columns.row {
        livekit_resource_id = some i;
        sync_status = synced;
        sync_error = none;
        last_synced_at = some now;
      })
      t) { sync_attempts = 0 }

abbrev pub mark_pending : Trunk → Trunk
mark_pending t = set_row (record t.columns.row { sync_status = pending }) t

abbrev pub forget_id : Trunk → Trunk
forget_id t = set_row (record t.columns.row { livekit_resource_id = none }) t

-- A row of `livekit_dispatch_rules`.
pub record Rule : Type 0 where
  pub columns : DispatchRule
  pub is_individual : Bool
  pub sip_trunk_id : Option ℕ
  pub sync_attempts : ℕ

abbrev pub set_rule_row : Row → Rule → Rule
set_rule_row r u = record u { columns = record u.columns { row = r } }

abbrev pub fail_rule : Reason → Rule → Rule
fail_rule e u = set_rule_row (record u.columns.row { sync_status = failed; sync_error = some e }) u

abbrev pub count_attempt : Rule → Rule
count_attempt u = record u { sync_attempts = u.sync_attempts + 1 }

abbrev pub is_trunk : ℕ → Trunk → Bool
is_trunk i t = t.columns.row.id == i

abbrev pub id_list : Option Text → List Text
id_list none = []
id_list (some i) = i ∷ []

abbrev pub ids_of : Option Trunk → List Text
ids_of none = []
ids_of (some t) = id_list (recorded_id t.columns.row)

-- `_trunk_ids_by_rule(…).get(rule_id)`, which is also what the synchronisation attaches the rule to.
unfoldable pub trunk_ids_by_rule : Rule → List Trunk → List Text
trunk_ids_by_rule u trunks = elim u.sip_trunk_id [
  | none ↦ []
  | some i ↦ ids_of (find (is_trunk i) trunks)
]

module _ {S : Type 0} (api : SipService S) where
  abbrev pub after_push : ℕ → Trunk → S × Reply TrunkInfo → S × Trunk
  after_push now t (s, answers info) = (s, mark_synced now info.sip_trunk_id t)
  after_push now t (s, raises e) = (s, mark_failed (livekit_error (take 1000 e)) t)

  abbrev pub send : Trunk → Option Text → List Text → Option Text → S → S × Reply TrunkInfo
  send t none numbers password s =
      api.create_trunk (trunk_info [] t.columns t.media_encryption_required numbers password) s
  send t (some i) numbers password s =
      api.update_trunk i (trunk_info i t.columns t.media_encryption_required numbers password) s

  -- The trunk is updated under the identifier that the row records, or created.
  unfoldable pub push : ℕ → List Text → Option Text → Trunk → S → S × Trunk
  unfolding trunk_info
  push now numbers password t s =
      after_push now t (send t (recorded_id t.columns.row) numbers password s)

  -- A deletion that raises is logged, and the identifier is forgotten all the same.
  abbrev pub repair_first : Bool → Option Text → Trunk → S → S × Trunk
  repair_first true (some i) t s = ((api.delete_trunk i s).0, forget_id t)
  repair_first true none t s = (s, t)
  repair_first false o t s = (s, t)

  abbrev pub sync_with : ℕ → Bool → List Text → Trunk → S → Reply (Option Text) → S × Trunk
  sync_with now repair numbers t s (raises e) = (s, mark_failed (livekit_error (take 1000 e)) t)
  sync_with now repair numbers t s (answers password) =
      let (s', t') = repair_first repair (recorded_id t.columns.row) t s in
      push now numbers password t' s'

  -- `apply_trunk_sync`
  unfoldable pub apply_trunk_sync :
      ℕ → Bool → List PhoneNumber → Reply (Option Text) → Trunk → S → S × Trunk
  unfolding push accepted_numbers
  apply_trunk_sync now repair ns password t s =
      sync_with now repair (accepted_numbers t.columns.row.id ns) (mark_pending t) s password

  abbrev pub after_create : ℕ → Rule → S × Reply RuleInfo → S × Rule
  after_create now u (s, answers info) = (
    s,
    record (set_rule_row
        (record u.columns.row {
          livekit_resource_id = some info.sip_dispatch_rule_id;
          sync_status = synced;
          sync_error = none;
          last_synced_at = some now;
        })
        u) { sync_attempts = 0 },
  )
  after_create now u (s, raises e) = (s, count_attempt (fail_rule (livekit_error (take 1000 e)) u))

  -- The rule of the identifier is deleted first, whether that raises or not.
  abbrev pub delete_first : Option Text → Rule → S → S × Rule
  delete_first none u s = (s, u)
  delete_first (some i) u s = (
    (api.delete_rule i s).0,
    set_rule_row (record u.columns.row { livekit_resource_id = none }) u,
  )

  abbrev pub sync_rule_with : ℕ → Rule → S → List Text → S × Rule
  sync_rule_with now u s [] = (s, count_attempt (fail_rule no_trunk u))
  sync_rule_with now u s (i ∷ is) =
      let (s', u') = delete_first (recorded_id u.columns.row) u s in
      after_create now u' (api.create_rule (rule_info u'.columns (i ∷ is)) s')

  -- `apply_dispatch_rule_sync`
  unfoldable pub apply_dispatch_rule_sync : ℕ → List Trunk → Rule → S → S × Rule
  unfolding trunk_ids_by_rule rule_info
  apply_dispatch_rule_sync now trunks u s =
      if not u.is_individual
      then (s, fail_rule shared_room u)
      else sync_rule_with now (set_rule_row (record u.columns.row { sync_status = pending }) u) s
          (trunk_ids_by_rule u trunks)
