-- ===== src/Drift/Tests.antt =====
-- A trunk that LiveKit holds with another number, one that it lost, and one that no row names.
use live_kit_voice_agent.Prelude.{
  ◌&&◌, ◌≡◌, refl, none, some, List, [], ◌∷◌, ◌++◌, Memᴰ, length, if◌then◌else◌,
}
use live_kit_voice_agent.Prelude.Sorting.{all}
use live_kit_voice_agent.Prelude.Text.{Text, text}
use live_kit_voice_agent.Drift.Compare.{
  Row, SipTrunk, TrunkSnapshot, pending, synced, drifted, sip_trunk, compare_trunks, compare,
  compare_rows, compare_row, find_orphans, is_ours, live, trunk_matches,
}
use live_kit_voice_agent.Drift.Report.{apply_to, finding_of}
use live_kit_voice_agent.Drift.Agreement.{
  is_empty, agrees_with, is_named, matches_live, trunk_row, trunk_id, trunk_name, match_trunk,
  compare_trunks-is_empty,
}
use live_kit_voice_agent.Drift.Marks.{apply_to-compare_trunks}

abbrev first_row : Row
first_row = record {
  id = 1;
  tenant_id = 7;
  name = text "main";
  livekit_resource_id = some (text "ST_1");
  sync_status = pending;
  sync_error = none;
  last_synced_at = none;
}

abbrev first_trunk : SipTrunk
first_trunk = record { row = first_row; allowed_ips = none; auth_username = none }

abbrev lost_trunk : SipTrunk
lost_trunk = record first_trunk {
  row = record first_row { id = 2; livekit_resource_id = some (text "ST_2") };
}

abbrev trunks : List (SipTrunk × List Text)
trunks = (first_trunk, text "+41" ∷ []) ∷ (lost_trunk, []) ∷ []

abbrev held : TrunkSnapshot
held = record {
  livekit_trunk_id = text "ST_1";
  name = text "main";
  numbers = text "+42" ∷ [];
  allowed_addresses = [];
  auth_username = none;
}

abbrev stray : TrunkSnapshot
stray = record held { livekit_trunk_id = text "ST_9" }

abbrev snapshots : List TrunkSnapshot
snapshots = held ∷ stray ∷ []

three_findings : length (compare_trunks trunks snapshots) ≡ 3
unfolding compare_trunks compare compare_rows compare_row find_orphans is_ours live trunk_matches
three_findings = refl

no_findings : finding_of [] 1 ≡ none
unfolding finding_of
no_findings = refl

apply_to-compare_trunks_example :
    (apply_to (compare_trunks trunks snapshots ++ []) 5 first_row).sync_status ≡ (
      if matches_live sip_trunk trunk_row trunk_id trunk_name match_trunk
        (first_trunk, text "+41" ∷ [])
        (live sip_trunk trunk_row trunk_id trunk_name match_trunk snapshots (text "ST_1"))
      then synced
      else drifted)
apply_to-compare_trunks_example =
    apply_to-compare_trunks trunks snapshots [] (first_trunk, text "+41" ∷ []) (text "ST_1") 5 refl
      (Memᴰ.head refl) refl no_findings

compare_trunks-is_empty_example : is_empty (compare_trunks trunks snapshots) ≡ (
    all (agrees_with sip_trunk trunk_row trunk_id trunk_name match_trunk snapshots) trunks
    && all (is_named sip_trunk trunk_row trunk_id trunk_name match_trunk trunks) snapshots)
compare_trunks-is_empty_example = compare_trunks-is_empty trunks snapshots
