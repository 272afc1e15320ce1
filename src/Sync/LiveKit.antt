-- ===== src/Sync/LiveKit.antt =====
-- The requests that `SipResourceManager` of services/configuration-api/app/livekit/sip.py makes, and
-- the snapshots of what it gets. The SIP service of LiveKit is an argument, over a state of its own.
use live_kit_voice_agent.Prelude.{ℕ, ◌≡◌, Bool, true, Option, none, some, List, [], ◌∷◌, map}
use live_kit_voice_agent.Prelude.Text.{Text, is_truthy}
use live_kit_voice_agent.Drift.Compare.{
  SipTrunk, DispatchRule, TrunkSnapshot, DispatchRuleSnapshot, sip_trunk, dispatch_rule, or_none,
  or_no_texts, live,
}
use live_kit_voice_agent.Drift.Agreement.{
  trunk_row, trunk_id, trunk_name, match_trunk, rule_row, rule_id, rule_name, match_rule,
}

-- `SIPInboundTrunkInfo`. The metadata names the tenant and the row.
pub record TrunkInfo : Type 0 where
  pub sip_trunk_id : Text
  pub name : Text
  pub metadata : ℕ × ℕ
  pub numbers : List Text
  pub allowed_addresses : List Text
  pub auth_username : Text
  pub auth_password : Text
  pub media_encryption : Bool

-- `CreateSIPDispatchRuleRequest`, and the rule that LiveKit keeps.
pub record RuleInfo : Type 0 where
  pub sip_dispatch_rule_id : Text
  pub name : Text
  pub metadata : ℕ × ℕ
  pub room_prefix : Text
  pub trunk_ids : List Text
  pub inbound_numbers : List Text
  pub agents : List Text

-- A call answers, or raises a `LiveKitError`.
pub data Reply (A : Type 0) : Type 0 where
  answers : A → Reply A
  raises : Text → Reply A

-- The SIP service.
pub record SipService (S : Type 0) : Type 0 where
  pub create_trunk : TrunkInfo → S → S × Reply TrunkInfo
  pub update_trunk : Text → TrunkInfo → S → S × Reply TrunkInfo
  pub delete_trunk : Text → S → S × Reply Unit
  pub list_trunks : S → List TrunkInfo
  pub create_rule : RuleInfo → S → S × Reply RuleInfo
  pub delete_rule : Text → S → S × Reply Unit
  pub list_rules : S → List RuleInfo

abbrev pub or_empty : Option Text → Text
or_empty none = []
or_empty (some t) = t

-- `_trunk_snapshot`
abbrev pub trunk_snapshot : TrunkInfo → TrunkSnapshot
trunk_snapshot i = record {
  livekit_trunk_id = i.sip_trunk_id;
  name = i.name;
  numbers = i.numbers;
  allowed_addresses = i.allowed_addresses;
  auth_username = or_none (some i.auth_username);
}

-- `_dispatch_snapshot`
abbrev pub dispatch_snapshot : RuleInfo → DispatchRuleSnapshot
dispatch_snapshot i = record {
  livekit_rule_id = i.sip_dispatch_rule_id;
  name = i.name;
  trunk_ids = i.trunk_ids;
  room_prefix = or_none (some i.room_prefix);
  agent_names = i.agents;
  inbound_numbers = i.inbound_numbers;
}

-- The trunk that the manager sends, new where the identifier is empty.
unfoldable pub trunk_info : Text → SipTrunk → Bool → List Text → Option Text → TrunkInfo
trunk_info i t encrypted numbers password = record {
  sip_trunk_id = i;
  name = t.row.name;
  metadata = (t.row.tenant_id, t.row.id);
  numbers = numbers;
  allowed_addresses = or_no_texts t.allowed_ips;
  auth_username = or_empty t.auth_username;
  auth_password = or_empty password;
  media_encryption = encrypted;
}

-- The rule that the manager sends.
unfoldable pub rule_info : DispatchRule → List Text → RuleInfo
rule_info r trunk_ids = record {
  sip_dispatch_rule_id = [];
  name = r.row.name;
  metadata = (r.row.tenant_id, r.row.id);
  room_prefix = or_empty r.room_prefix;
  trunk_ids = trunk_ids;
  inbound_numbers = or_no_texts r.matched_numbers;
  agents = r.agent_dispatch_name ∷ [];
}

module _ {S : Type 0} where
  -- `list_inbound_trunks`
  abbrev pub list_inbound_trunks : SipService S → S → List TrunkSnapshot
  list_inbound_trunks api s = map trunk_snapshot (api.list_trunks s)

  -- `list_dispatch_rules`
  abbrev pub list_dispatch_rules : SipService S → S → List DispatchRuleSnapshot
  list_dispatch_rules api s = map dispatch_snapshot (api.list_rules s)

  -- What LiveKit answers with is the trunk that was sent, under an identifier that is not empty, and the
  -- listing shows it under that identifier.
  pub record IsStored (api : SipService S) (s : S) (sent kept : TrunkInfo) : Type 0 where
    pub same : kept ≡ record sent { sip_trunk_id = kept.sip_trunk_id }
    pub named : is_truthy kept.sip_trunk_id ≡ true
    pub listed :
        live sip_trunk trunk_row trunk_id trunk_name match_trunk
          (list_inbound_trunks api s)
          kept.sip_trunk_id
        ≡ some (trunk_snapshot kept)

  -- The same of a rule.
  pub record IsRuleStored (api : SipService S) (s : S) (sent kept : RuleInfo) : Type 0 where
    pub same : kept ≡ record sent { sip_dispatch_rule_id = kept.sip_dispatch_rule_id }
    pub named : is_truthy kept.sip_dispatch_rule_id ≡ true
    pub listed :
        live dispatch_rule rule_row rule_id rule_name match_rule
          (list_dispatch_rules api s)
          kept.sip_dispatch_rule_id
        ≡ some (dispatch_snapshot kept)

  -- What the code relies on where a call does not raise.
  pub record SipServiceLaws (api : SipService S) : Type 0 where
    pub create_trunk-IsStored :
        (sent kept : TrunkInfo) (s s' : S)
        → api.create_trunk sent s ≡ (s', answers kept)
        → IsStored api s' sent kept
    pub update_trunk-IsStored :
        (i : Text) (sent kept : TrunkInfo) (s s' : S)
        → is_truthy i ≡ true
        → api.update_trunk i sent s ≡ (s', answers kept)
        → IsStored api s' sent kept
    pub create_rule-IsRuleStored :
        (sent kept : RuleInfo) (s s' : S)
        → api.create_rule sent s ≡ (s', answers kept)
        → IsRuleStored api s' sent kept
