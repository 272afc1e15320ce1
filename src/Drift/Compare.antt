-- ===== src/Drift/Compare.antt =====
-- The comparison of the tables with LiveKit of services/configuration-api/app/livekit/drift.py, with
-- `trunk_matches` and `rule_matches` of sip.py beside it. A reason keeps what it names and not its
-- wording.
use live_kit_voice_agent.Prelude.{
  ℕ, Bool, true, false, ◌&&◌, Option, none, some, List, [], ◌∷◌, ◌++◌, if◌then◌else◌, any,
}
use live_kit_voice_agent.Prelude.Sorting.{all}
use live_kit_voice_agent.Prelude.Text.{Text, text_eq, is_truthy}

-- `SyncStatus`
pub data SyncStatus : Type 0 where
  synced pending failed drifted : SyncStatus

-- `DriftKind`
pub data DriftKind : Type 0 where
  missing mismatch orphan : DriftKind

-- `ResourceKind`
pub data ResourceKind : Type 0 where
  sip_trunk dispatch_rule : ResourceKind

pub data Reason : Type 0 where
  not_in_livekit : Text → Reason
  differs : Reason
  unnamed : Text → Reason
  livekit_error : Text → Reason
  shared_room no_trunk : Reason

-- `DriftFinding`
pub record DriftFinding : Type 0 where
  pub resource : ResourceKind
  pub kind : DriftKind
  pub name : Text
  pub reason : Reason
  pub row_id : Option ℕ
  pub tenant_id : Option ℕ
  pub livekit_resource_id : Option Text

-- The columns of either table that the comparison reads and writes.
pub record Row : Type 0 where
  pub id : ℕ
  pub tenant_id : ℕ
  pub name : Text
  pub livekit_resource_id : Option Text
  pub sync_status : SyncStatus
  pub sync_error : Option Reason
  pub last_synced_at : Option ℕ

-- The columns of `SipTrunk` that the comparison reads.
pub record SipTrunk : Type 0 where
  pub row : Row
  pub allowed_ips : Option (List Text)
  pub auth_username : Option Text

-- The columns of `LiveKitDispatchRule` that the comparison reads.
pub record DispatchRule : Type 0 where
  pub row : Row
  pub room_prefix : Option Text
  pub agent_dispatch_name : Text
  pub matched_numbers : Option (List Text)

pub record TrunkSnapshot : Type 0 where
  pub livekit_trunk_id : Text
  pub name : Text
  pub numbers : List Text
  pub allowed_addresses : List Text
  pub auth_username : Option Text

pub record DispatchRuleSnapshot : Type 0 where
  pub livekit_rule_id : Text
  pub name : Text
  pub trunk_ids : List Text
  pub room_prefix : Option Text
  pub agent_names : List Text
  pub inbound_numbers : List Text

abbrev pub is_in_texts : List Text → Text → Bool
is_in_texts ts t = any (text_eq t) ts

-- `set(a) == set(b)`
abbrev pub same_set : List Text → List Text → Bool
same_set a b = all (is_in_texts b) a && all (is_in_texts a) b

abbrev pub or_no_texts : Option (List Text) → List Text
or_no_texts none = []
or_no_texts (some ts) = ts

-- `text or None`
abbrev pub or_none : Option Text → Option Text
or_none none = none
or_none (some t) = if is_truthy t then some t else none

abbrev pub same_option : Option Text → Option Text → Bool
same_option none none = true
same_option none (some b) = false
same_option (some a) none = false
same_option (some a) (some b) = text_eq a b

-- `trunk_matches`
unfoldable pub trunk_matches : TrunkSnapshot → SipTrunk → List Text → Bool
trunk_matches s t numbers =
    text_eq s.name t.row.name
    && (same_set s.numbers numbers
        && (same_set s.allowed_addresses (or_no_texts t.allowed_ips)
            && same_option (or_none s.auth_username) (or_none t.auth_username)))

-- `rule_matches`
unfoldable pub rule_matches : DispatchRuleSnapshot → DispatchRule → List Text → Bool
rule_matches s r trunk_ids =
    text_eq s.name r.row.name
    && (same_set s.trunk_ids trunk_ids
        && (same_option (or_none s.room_prefix) (or_none r.room_prefix)
            && (same_set s.agent_names (r.agent_dispatch_name ∷ [])
                && same_set s.inbound_numbers (or_no_texts r.matched_numbers))))

-- `if not row.livekit_resource_id`: the identifier, unless it is missing or empty.
abbrev pub recorded_id : Row → Option Text
recorded_id r = or_none r.livekit_resource_id

-- What the two comparisons share: the rows with what a snapshot is compared with, and the snapshots
-- with their identifiers and names.
module _ {R S : Type 0} (resource : ResourceKind) (row_of : R → Row) (id_of : S → Text)
    (name_of : S → Text) (matches : S → R → Bool) where
  -- `live.get(…)`: the last snapshot of the identifier, as a later key replaces an earlier one.
  unfoldable pub live : List S → Text → Option S
  live [] i = none
  live (s ∷ ss) i = elim (live ss i) [
    | some later ↦ some later
    | none ↦ if text_eq (id_of s) i then some s else none
  ]

  -- `… in ours`
  unfoldable pub is_ours : List R → Text → Bool
  is_ours [] i = false
  is_ours (r ∷ rs) i =
      let rest = is_ours rs i in
      elim (recorded_id (row_of r)) [ none ↦ rest | some j ↦ if text_eq j i then true else rest ]

  abbrev pub row_finding : R → Text → DriftKind → Reason → DriftFinding
  row_finding r i kind reason = record {
    resource = resource;
    kind = kind;
    name = (row_of r).name;
    reason = reason;
    row_id = some (row_of r).id;
    tenant_id = some (row_of r).tenant_id;
    livekit_resource_id = some i;
  }

  abbrev pub orphan_finding : S → DriftFinding
  orphan_finding s = record {
    resource = resource;
    kind = orphan;
    name = name_of s;
    reason = unnamed (id_of s);
    row_id = none;
    tenant_id = none;
    livekit_resource_id = some (id_of s);
  }

  -- What is found of a row with that identifier, from the snapshot of it.
  unfoldable pub compare_row : R → Text → Option S → List DriftFinding
  compare_row r i none = row_finding r i missing (not_in_livekit i) ∷ []
  compare_row r i (some s) = if matches s r then [] else row_finding r i mismatch differs ∷ []

  abbrev pub compare_recorded : List S → R → Option Text → List DriftFinding
  compare_recorded ss r none = []
  compare_recorded ss r (some i) = compare_row r i (live ss i)

  -- The loop over the rows.
  unfoldable pub compare_rows : List S → List R → List DriftFinding
  unfolding live compare_row
  compare_rows ss [] = []
  compare_rows ss (r ∷ rs) = compare_recorded ss r (recorded_id (row_of r)) ++ compare_rows ss rs

  -- The loop over the snapshots.
  unfoldable pub find_orphans : List R → List S → List DriftFinding
  unfolding is_ours
  find_orphans rs [] = []
  find_orphans rs (s ∷ ss) =
      let rest = find_orphans rs ss in
      if is_ours rs (id_of s) then rest else orphan_finding s ∷ rest

  unfoldable pub compare : List R → List S → List DriftFinding
  unfolding compare_rows find_orphans
  compare rs ss = compare_rows ss rs ++ find_orphans rs ss

-- A row with what `numbers_by_trunk.get(row.id, [])` or `trunk_ids_by_rule.get(row.id, [])` gives.
unfoldable pub compare_trunks : List (SipTrunk × List Text) → List TrunkSnapshot → List DriftFinding
unfolding compare trunk_matches
compare_trunks =
    compare sip_trunk (λ t. t.0.row) (λ s. s.livekit_trunk_id) (λ s. s.name)
      (λ s t. trunk_matches s t.0 t.1)

unfoldable pub compare_rules :
    List (DispatchRule × List Text) → List DispatchRuleSnapshot → List DriftFinding
unfolding compare rule_matches
compare_rules =
    compare dispatch_rule (λ r. r.0.row) (λ s. s.livekit_rule_id) (λ s. s.name)
      (λ s r. rule_matches s r.0 r.1)
