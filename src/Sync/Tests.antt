-- ===== src/Sync/Tests.antt =====
-- A service that keeps the last trunk and the last rule, a trunk of which one number is disabled,
-- and a rule on the trunk.
use mathlib.Core.Path.{subst}
use live_kit_voice_agent.Prelude.{
  ◌≡◌, refl, true, false, none, some, List, [], ◌∷◌, ◌++◌, if◌then◌else◌, Memᴰ,
}
use live_kit_voice_agent.Prelude.Sorting.{sorted}
use live_kit_voice_agent.Prelude.Text.{Text, text, text_eq_iff, is_truthy}
use live_kit_voice_agent.Models.{active, disabled}
use live_kit_voice_agent.Drift.Compare.{
  sip_trunk, dispatch_rule, compare_rules, same_set, synced, pending, drifted, live, compare_trunks,
}
use live_kit_voice_agent.Drift.Report.{finding_of, apply_to}
use live_kit_voice_agent.Drift.Agreement.{
  trunk_row, trunk_id, trunk_name, match_trunk, rule_row, rule_id, rule_name, match_rule,
}
use live_kit_voice_agent.Drift.Marks.{are_distinct}
use live_kit_voice_agent.Sync.LiveKit.{
  TrunkInfo, RuleInfo, IsRuleStored, list_dispatch_rules, Reply, answers, raises, SipService,
  SipServiceLaws, IsStored, list_inbound_trunks,
}
use live_kit_voice_agent.Sync.Trunks.{
  PhoneNumber, accepted_numbers, numbers_by_trunk, Trunk, apply_trunk_sync, Rule, trunk_ids_by_rule,
  apply_dispatch_rule_sync,
}
use live_kit_voice_agent.Sync.Sameness.{is_synced}
use live_kit_voice_agent.Sync.Checked.{apply_trunk_sync-checked}
use live_kit_voice_agent.Sync.RuleChecked.{apply_dispatch_rule_sync-checked}

-- What the service keeps.
abbrev Kept : Type 0
Kept = List TrunkInfo × List RuleInfo

-- The last trunk and the last rule alone are kept.
abbrev keep : TrunkInfo → Kept → Kept × Reply TrunkInfo
keep info s = ((info ∷ [], s.1), answers info)

abbrev keep_rule : RuleInfo → Kept → Kept × Reply RuleInfo
keep_rule info s = ((s.0, info ∷ []), answers info)

abbrev service : SipService Kept
service = record {
  create_trunk = λ info s. keep (record info { sip_trunk_id = text "ST" }) s;
  update_trunk = λ i info s. keep (record info { sip_trunk_id = i }) s;
  delete_trunk = λ i s. (([], s.1), answers tt);
  list_trunks = λ s. s.0;
  create_rule = λ info s. keep_rule (record info { sip_dispatch_rule_id = text "SDR" }) s;
  delete_rule = λ i s. ((s.0, []), answers tt);
  list_rules = λ s. s.1;
}

keep-IsStored :
    (i : Text) (sent : TrunkInfo) (s : Kept)
    → is_truthy i ≡ true
    → IsStored service
        (keep (record sent { sip_trunk_id = i }) s).0
        sent
        (record sent { sip_trunk_id = i })
unfolding live
keep-IsStored i sent s h = record {
  same = refl;
  named = h;
  listed = let e = (text_eq_iff i i).1 refl in rw e refl;
}

keep_rule-IsRuleStored :
    (sent : RuleInfo) (s : Kept)
    → IsRuleStored service
        (keep_rule (record sent { sip_dispatch_rule_id = text "SDR" }) s).0
        sent
        (record sent { sip_dispatch_rule_id = text "SDR" })
unfolding live
keep_rule-IsRuleStored sent s = record { same = refl; named = refl; listed = refl }

abbrev IsAnswered : TrunkInfo → Kept × Reply TrunkInfo → Type 0
IsAnswered sent (s, answers kept) = IsStored service s sent kept
IsAnswered sent (s, raises e) = Unit

abbrev IsRuleAnswered : RuleInfo → Kept × Reply RuleInfo → Type 0
IsRuleAnswered sent (s, answers kept) = IsRuleStored service s sent kept
IsRuleAnswered sent (s, raises e) = Unit

service_laws : SipServiceLaws service
service_laws = record {
  create_trunk-IsStored =
      λ sent kept s s' e. subst (IsAnswered sent) e (keep-IsStored (text "ST") sent s refl);
  update_trunk-IsStored =
      λ i sent kept s s' h e. subst (IsAnswered sent) e (keep-IsStored i sent s h);
  create_rule-IsRuleStored =
      λ sent kept s s' e. subst (IsRuleAnswered sent) e (keep_rule-IsRuleStored sent s);
}

abbrev phone_numbers : List PhoneNumber
phone_numbers =
    record { number = text "1"; sip_trunk_id = some 3; status = active }
    ∷ record { number = text "2"; sip_trunk_id = some 3; status = disabled }
    ∷ []

abbrev trunk : Trunk
trunk = record {
  columns = record {
    row = record {
      id = 3;
      tenant_id = 4;
      name = text "PBX";
      livekit_resource_id = none;
      sync_status = pending;
      sync_error = none;
      last_synced_at = none;
    };
    allowed_ips = none;
    auth_username = none;
  };
  media_encryption_required = true;
  sync_attempts = 2;
}

abbrev out : Kept × Trunk
out = apply_trunk_sync service 9 true phone_numbers (answers none) trunk ([], [])

out_synced : is_synced out.1.columns.row.sync_status ≡ true
unfolding apply_trunk_sync
out_synced = refl

apart :
    are_distinct sip_trunk trunk_row trunk_id trunk_name match_trunk
      ((out.1.columns, numbers_by_trunk 3 phone_numbers) ∷ [])
    ≡ true
apart = refl

no_other : finding_of [] out.1.columns.row.id ≡ none
unfolding finding_of
no_other = refl

apply_trunk_sync-checked_example :
    (apply_to
      (compare_trunks
          ((out.1.columns, numbers_by_trunk 3 phone_numbers) ∷ [])
          (list_inbound_trunks service out.0)
        ++ [])
      20
      out.1.columns.row).sync_status
    ≡ (if same_set (accepted_numbers 3 phone_numbers) (numbers_by_trunk 3 phone_numbers)
        then synced
        else drifted)
apply_trunk_sync-checked_example =
    apply_trunk_sync-checked service service_laws 9 20 true phone_numbers (answers none) trunk
      ([], []) ((out.1.columns, numbers_by_trunk 3 phone_numbers) ∷ []) [] out_synced apart
      (Memᴰ.head refl) no_other

-- The numbers that a synchronisation sends are not those that a check expects.
disabled_drifts :
    same_set (accepted_numbers 3 phone_numbers) (numbers_by_trunk 3 phone_numbers) ≡ false
unfolding accepted_numbers numbers_by_trunk sorted
disabled_drifts = refl

abbrev rule : Rule
rule = record {
  columns = record {
    row = record {
      id = 5;
      tenant_id = 4;
      name = text "Sales";
      livekit_resource_id = some (text "old");
      sync_status = drifted;
      sync_error = none;
      last_synced_at = none;
    };
    room_prefix = none;
    agent_dispatch_name = text "agent";
    matched_numbers = some (text "1" ∷ []);
  };
  is_individual = true;
  sip_trunk_id = some 3;
  sync_attempts = 0;
}

abbrev rule_out : Kept × Rule
rule_out = apply_dispatch_rule_sync service 10 (out.1 ∷ []) rule out.0

-- The trunk of a repair that failed after the deletion.
abbrev forgotten : Trunk
forgotten = trunk

rule_synced : is_synced rule_out.1.columns.row.sync_status ≡ true
unfolding apply_dispatch_rule_sync apply_trunk_sync trunk_ids_by_rule
rule_synced = refl

rules_apart :
    are_distinct dispatch_rule rule_row rule_id rule_name match_rule
      ((rule_out.1.columns, trunk_ids_by_rule rule_out.1 (forgotten ∷ [])) ∷ [])
    ≡ true
rules_apart = refl

no_rule_finding : finding_of [] rule_out.1.columns.row.id ≡ none
unfolding finding_of
no_rule_finding = refl

apply_dispatch_rule_sync-checked_example :
    (apply_to
      (compare_rules
          ((rule_out.1.columns, trunk_ids_by_rule rule_out.1 (forgotten ∷ [])) ∷ [])
          (list_dispatch_rules service rule_out.0)
        ++ [])
      20
      rule_out.1.columns.row).sync_status
    ≡ (if same_set (trunk_ids_by_rule rule (out.1 ∷ [])) (trunk_ids_by_rule rule (forgotten ∷ []))
        then synced
        else drifted)
apply_dispatch_rule_sync-checked_example =
    apply_dispatch_rule_sync-checked service service_laws 10 20 (out.1 ∷ []) (forgotten ∷ []) rule
      out.0 rule_out.0 ((rule_out.1.columns, trunk_ids_by_rule rule_out.1 (forgotten ∷ [])) ∷ []) []
      rule_synced refl rules_apart (Memᴰ.head refl) no_rule_finding

-- A rule drifts once the identifier of its trunk is forgotten.
forgotten_drifts :
    same_set (trunk_ids_by_rule rule (out.1 ∷ [])) (trunk_ids_by_rule rule (forgotten ∷ [])) ≡ false
unfolding apply_trunk_sync trunk_ids_by_rule
forgotten_drifts = refl
