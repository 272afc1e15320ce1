-- ===== src/Drift/Report.antt =====
-- What a comparison leads to: `apply_findings` and `publish_metrics` of
-- services/configuration-api/app/livekit/drift.py.
use live_kit_voice_agent.Prelude.{
  ℕ, ◌+◌, Bool, false, Option, none, some, List, [], ◌∷◌, if◌then◌else◌, ◌==◌, map,
}
use live_kit_voice_agent.Drift.Compare.{
  Row, synced, drifted, DriftKind, missing, mismatch, orphan, ResourceKind, sip_trunk,
  dispatch_rule, DriftFinding, recorded_id,
}

-- `item.row_id is not None and item.kind is not ORPHAN`: the row that the finding marks.
abbrev pub marks : Option ℕ → DriftKind → ℕ → Bool
marks none kind i = false
marks (some j) orphan i = false
marks (some j) missing i = j == i
marks (some j) mismatch i = j == i

-- `drifted_ids.get(row.id)`: the last finding that marks the row.
unfoldable pub finding_of : List DriftFinding → ℕ → Option DriftFinding
finding_of [] i = none
finding_of (f ∷ fs) i = elim (finding_of fs i) [
  | some later ↦ some later
  | none ↦ if marks f.row_id f.kind i then some f else none
]

abbrev pub mark : ℕ → Row → Option DriftFinding → Row
mark now r (some f) = record r { sync_status = drifted; sync_error = some f.reason }
mark now r none = record r { sync_status = synced; sync_error = none; last_synced_at = some now }

-- The body of the loop of `apply_findings`.
unfoldable pub apply_to : List DriftFinding → ℕ → Row → Row
unfolding finding_of
apply_to findings now r = elim (recorded_id r) [
  | none ↦ r
  | some i ↦ mark now r (finding_of findings r.id)
]

-- `apply_findings`
unfoldable pub apply_findings : List Row → List DriftFinding → ℕ → List Row
unfolding apply_to
apply_findings rows findings now = map (apply_to findings now) rows

-- The gauges of `publish_metrics`.
pub record Gauges : Type 0 where
  pub trunks : ℕ
  pub rules : ℕ
  pub orphans : ℕ

abbrev pub count_drifted : ResourceKind → Gauges → Gauges
count_drifted sip_trunk g = record g { trunks = g.trunks + 1 }
count_drifted dispatch_rule g = record g { rules = g.rules + 1 }

abbrev pub count : DriftKind → ResourceKind → Gauges → Gauges
count orphan resource g = record g { orphans = g.orphans + 1 }
count missing resource g = count_drifted resource g
count mismatch resource g = count_drifted resource g

unfoldable pub count_findings : Gauges → List DriftFinding → Gauges
count_findings g [] = g
count_findings g (f ∷ fs) = count_findings (count f.kind f.resource g) fs

-- `publish_metrics`, whatever the gauges showed before.
unfoldable pub publish_metrics : List DriftFinding → Gauges
unfolding count_findings
publish_metrics findings = count_findings (record { trunks = 0; rules = 0; orphans = 0 }) findings
