-- ===== src/Drift/Agreement.antt =====
-- What the findings say of the agreement of the tables with LiveKit.
use live_kit_voice_agent.Prelude.{
  ◌+◌, ◌≡◌, refl, ◌∙◌, Bool, true, false, ◌&&◌, Option, none, some, List, [], ◌∷◌, ◌++◌, length,
  arith,
}
use live_kit_voice_agent.Prelude.Sorting.{all}
use live_kit_voice_agent.Prelude.Text.{Text}
use live_kit_voice_agent.Drift.Compare.{
  Row, DriftFinding, DriftKind, missing, mismatch, orphan, ResourceKind, sip_trunk, dispatch_rule,
  SipTrunk, TrunkSnapshot, DispatchRule, DispatchRuleSnapshot, rule_matches, trunk_matches,
  recorded_id, live, is_ours, compare_row, compare_recorded, compare_rows, find_orphans, compare,
  compare_trunks,
}
use live_kit_voice_agent.Drift.Report.{Gauges, count, count_findings, publish_metrics}

abbrev pub is_empty {ℓ} : {A : Type ℓ} → List A → Bool
is_empty [] = true
is_empty (x ∷ xs) = false

is_empty-append {ℓ} :
    {A : Type ℓ} (xs ys : List A) → is_empty (xs ++ ys) ≡ (is_empty xs && is_empty ys)
is_empty-append [] ys = refl
is_empty-append (x ∷ xs) ys = refl

module _ {R S : Type 0} (resource : ResourceKind) (row_of : R → Row) (id_of : S → Text)
    (name_of : S → Text) (matches : S → R → Bool) where
  abbrev pub matches_live : R → Option S → Bool
  matches_live r none = false
  matches_live r (some s) = matches s r

  abbrev pub agrees_recorded : List S → R → Option Text → Bool
  agrees_recorded ss r none = true
  agrees_recorded ss r (some i) = matches_live r (live resource row_of id_of name_of matches ss i)

  -- A row that records no resource agrees with LiveKit, and one that does if the resource is there
  -- and matches it.
  abbrev pub agrees_with : List S → R → Bool
  agrees_with ss r = agrees_recorded ss r (recorded_id (row_of r))

  compare_row-is_empty :
      (r : R) (i : Text) (o : Option S)
      → is_empty (compare_row resource row_of id_of name_of matches r i o) ≡ matches_live r o
  unfolding compare_row
  compare_row-is_empty r i none = refl
  compare_row-is_empty r i (some s) = ground arith

  compare_recorded-is_empty :
      (ss : List S) (r : R) (o : Option Text)
      → is_empty (compare_recorded resource row_of id_of name_of matches ss r o)
        ≡ agrees_recorded ss r o
  compare_recorded-is_empty ss r none = refl
  compare_recorded-is_empty ss r (some i) =
      compare_row-is_empty r i (live resource row_of id_of name_of matches ss i)

  abbrev pub is_named : List R → S → Bool
  is_named rs s = is_ours resource row_of id_of name_of matches rs (id_of s)

  compare_rows-is_empty :
      (ss : List S) (rs : List R)
      → is_empty (compare_rows resource row_of id_of name_of matches ss rs)
        ≡ all (agrees_with ss) rs
  unfolding compare_rows
  compare_rows-is_empty ss [] = refl
  compare_rows-is_empty ss (r ∷ rs) =
      let here =
        compare_recorded resource row_of id_of name_of matches ss r (recorded_id (row_of r)) in
      let there = compare_rows resource row_of id_of name_of matches ss rs in
      let split = is_empty-append here there in
      let first = compare_recorded-is_empty ss r (recorded_id (row_of r)) in
      let rest = compare_rows-is_empty ss rs in split ∙ rw (first, rest) refl

  find_orphans-is_empty :
      (rs : List R) (ss : List S)
      → is_empty (find_orphans resource row_of id_of name_of matches rs ss) ≡ all (is_named rs) ss
  unfolding find_orphans
  find_orphans-is_empty rs [] = refl
  find_orphans-is_empty rs (s ∷ ss) = let rest = find_orphans-is_empty rs ss in ground (arith, rest)

  pub compare-is_empty :
      (rs : List R) (ss : List S)
      → is_empty (compare resource row_of id_of name_of matches rs ss)
        ≡ (all (agrees_with ss) rs && all (is_named rs) ss)
  unfolding compare
  compare-is_empty rs ss =
      is_empty-append (compare_rows resource row_of id_of name_of matches ss rs)
        (find_orphans resource row_of id_of name_of matches rs ss)
      ∙ rw (compare_rows-is_empty ss rs, find_orphans-is_empty rs ss) refl

abbrev pub trunk_row : SipTrunk × List Text → Row
trunk_row t = t.0.row

abbrev pub trunk_id : TrunkSnapshot → Text
trunk_id s = s.livekit_trunk_id

abbrev pub trunk_name : TrunkSnapshot → Text
trunk_name s = s.name

abbrev pub match_trunk : TrunkSnapshot → SipTrunk × List Text → Bool
unfolding trunk_matches
match_trunk s t = trunk_matches s t.0 t.1

-- The same of a dispatch rule.
abbrev pub rule_row : DispatchRule × List Text → Row
rule_row r = r.0.row

abbrev pub rule_id : DispatchRuleSnapshot → Text
rule_id s = s.livekit_rule_id

abbrev pub rule_name : DispatchRuleSnapshot → Text
rule_name s = s.name

abbrev pub match_rule : DispatchRuleSnapshot → DispatchRule × List Text → Bool
unfolding rule_matches
match_rule s r = rule_matches s r.0 r.1

-- The comparison of the trunks finds nothing exactly if each trunk that records a LiveKit identifier
-- is there and matches, and each trunk that LiveKit holds is recorded.
pub compare_trunks-is_empty :
    (ts : List (SipTrunk × List Text)) (ss : List TrunkSnapshot)
    → is_empty (compare_trunks ts ss) ≡ (
        all (agrees_with sip_trunk trunk_row trunk_id trunk_name match_trunk ss) ts
        && all (is_named sip_trunk trunk_row trunk_id trunk_name match_trunk ts) ss)
unfolding compare_trunks
compare_trunks-is_empty ts ss =
    compare-is_empty sip_trunk trunk_row trunk_id trunk_name match_trunk ts ss

count_total :
    (kind : DriftKind) (resource : ResourceKind) (g : Gauges)
    → let h = count kind resource g in
      h.trunks + h.rules + h.orphans ≡ g.trunks + g.rules + g.orphans + 1
count_total orphan resource g = omega arith
count_total missing sip_trunk g = omega arith
count_total missing dispatch_rule g = omega arith
count_total mismatch sip_trunk g = omega arith
count_total mismatch dispatch_rule g = omega arith

count_findings-total :
    (g : Gauges) (fs : List DriftFinding)
    → let h = count_findings g fs in
      h.trunks + h.rules + h.orphans ≡ g.trunks + g.rules + g.orphans + length fs
unfolding count_findings
count_findings-total g [] = omega arith
count_findings-total g (f ∷ fs) =
    let rest = count_findings-total (count f.kind f.resource g) fs in
    let step = count_total f.kind f.resource g in omega (arith, rest, step)

-- Each finding is counted by one gauge: after a check the gauges add up to the number of findings,
-- whatever they showed before.
pub publish_metrics-total :
    (fs : List DriftFinding)
    → let g = publish_metrics fs in g.trunks + g.rules + g.orphans ≡ length fs
unfolding publish_metrics
publish_metrics-total fs =
    let e = count_findings-total (record { trunks = 0; rules = 0; orphans = 0 }) fs in
    omega (arith, e)
