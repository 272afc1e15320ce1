-- ===== src/Sync/RuleChecked.antt =====
-- What a check for drift finds of a dispatch rule that was synchronised.
use live_kit_voice_agent.Prelude.{
  ℕ, ◌≡◌, refl, ap, ◌∙◌, Bool, true, false, not, ◌&&◌, Option, none, some, List, [], ◌∷◌, ◌++◌,
  if◌then◌else◌, Memᴰ, arith, map, find,
}
use live_kit_voice_agent.Prelude.Text.{Text, text_eq}
use live_kit_voice_agent.Drift.Compare.{
  synced, drifted, pending, shared_room, DispatchRule, DriftFinding, dispatch_rule, same_set,
  same_option, or_none, or_no_texts, rule_matches, recorded_id, live, compare_rules,
}
use live_kit_voice_agent.Drift.Report.{finding_of, apply_to}
use live_kit_voice_agent.Drift.Agreement.{rule_row, rule_id, rule_name, match_rule, matches_live}
use live_kit_voice_agent.Drift.Marks.{are_distinct, apply_to-compare_rules}
use live_kit_voice_agent.Sync.LiveKit.{
  RuleInfo, Reply, answers, raises, SipService, SipServiceLaws, IsRuleStored, or_empty,
  dispatch_snapshot, rule_info, list_dispatch_rules,
}
use live_kit_voice_agent.Sync.Trunks.{
  Trunk, Rule, set_rule_row, fail_rule, trunk_ids_by_rule, ids_of, is_trunk, after_create,
  delete_first, sync_rule_with, apply_dispatch_rule_sync,
}
use live_kit_voice_agent.Sync.Sameness.{is_synced, text_eq_refl, same_set_refl, same_or_empty}

conjunction :
    (a b c d e x : Bool)
    → a ≡ true
    → b ≡ x
    → c ≡ true
    → d ≡ true
    → e ≡ true
    → (a && (b && (c && (d && e)))) ≡ x
conjunction a b c d e x h k l m n = ground arith

-- What a rule on that trunk is attached to.
abbrev trunk_ids_of : List Trunk → Option ℕ → List Text
trunk_ids_of trunks none = []
trunk_ids_of trunks (some i) = ids_of (find (is_trunk i) trunks)

module _ {S : Type 0} (api : SipService S) where
  -- LiveKit keeps the rule of a row as the row says, attached to the trunks.
  record IsCreated (trunk_ids : List Text) (out : S × Rule) : Type 0 where
    kept : RuleInfo
    id : recorded_id out.1.columns.row ≡ some kept.sip_dispatch_rule_id
    listed :
        live dispatch_rule rule_row rule_id rule_name match_rule
          (list_dispatch_rules api out.0)
          kept.sip_dispatch_rule_id
        ≡ some (dispatch_snapshot kept)
    name : kept.name ≡ out.1.columns.row.name
    attached : kept.trunk_ids ≡ trunk_ids
    prefix : kept.room_prefix ≡ or_empty out.1.columns.room_prefix
    agents : kept.agents ≡ out.1.columns.agent_dispatch_name ∷ []
    numbers : kept.inbound_numbers ≡ or_no_texts out.1.columns.matched_numbers

  after_create-IsCreated :
      (now : ℕ) (trunk_ids : List Text) (u : Rule) (r : S × Reply RuleInfo)
      → ((kept : RuleInfo) (s : S)
          → r ≡ (s, answers kept)
          → IsRuleStored api s (rule_info u.columns trunk_ids) kept)
      → is_synced (after_create api now u r).1.columns.row.sync_status ≡ true
      → IsCreated trunk_ids (after_create api now u r)
  unfolding rule_info
  after_create-IsCreated now trunk_ids u (s, raises e) stored h = absurd (ground arith)
  after_create-IsCreated now trunk_ids u (s, answers kept) stored h =
      let k = stored kept s refl in
      record {
        kept = kept;
        id = ap (λ b. if b then some kept.sip_dispatch_rule_id else none) k.named;
        listed = k.listed;
        name = ap (λ x. x.name) k.same;
        attached = ap (λ x. x.trunk_ids) k.same;
        prefix = ap (λ x. x.room_prefix) k.same;
        agents = ap (λ x. x.agents) k.same;
        numbers = ap (λ x. x.inbound_numbers) k.same;
      }

  match_rule-IsCreated :
      (trunk_ids others : List Text) (out : S × Rule)
      → (p : IsCreated trunk_ids out)
      → rule_matches (dispatch_snapshot p.kept) out.1.columns others ≡ same_set trunk_ids others
  unfolding rule_matches
  match_rule-IsCreated trunk_ids others out p =
      let r = out.1.columns in
      let k = dispatch_snapshot p.kept in
      conjunction (text_eq k.name r.row.name) (same_set k.trunk_ids others)
        (same_option (or_none k.room_prefix) (or_none r.room_prefix))
        (same_set k.agent_names (r.agent_dispatch_name ∷ []))
        (same_set k.inbound_numbers (or_no_texts r.matched_numbers)) (same_set trunk_ids others)
        (ap (λ x. text_eq x r.row.name) p.name ∙ text_eq_refl r.row.name)
        (ap (λ x. same_set x others) p.attached)
        (ap (λ x. same_option (or_none (or_none (some x))) (or_none r.room_prefix)) p.prefix
          ∙ same_or_empty r.room_prefix)
        (ap (λ x. same_set x (r.agent_dispatch_name ∷ [])) p.agents
          ∙ same_set_refl (r.agent_dispatch_name ∷ []))
        (ap (λ x. same_set x (or_no_texts r.matched_numbers)) p.numbers
          ∙ same_set_refl (or_no_texts r.matched_numbers))

  after_create-sip_trunk_id :
      (now : ℕ) (u : Rule) (r : S × Reply RuleInfo)
      → (after_create api now u r).1.sip_trunk_id ≡ u.sip_trunk_id
  after_create-sip_trunk_id now u (s, answers info) = refl
  after_create-sip_trunk_id now u (s, raises e) = refl

  delete_first-sip_trunk_id :
      (o : Option Text) (u : Rule) (s : S)
      → (delete_first api o u s).1.sip_trunk_id ≡ u.sip_trunk_id
  delete_first-sip_trunk_id none u s = refl
  delete_first-sip_trunk_id (some i) u s = refl

  sync_rule_with-sip_trunk_id :
      (now : ℕ) (u : Rule) (s : S) (trunk_ids : List Text)
      → (sync_rule_with api now u s trunk_ids).1.sip_trunk_id ≡ u.sip_trunk_id
  sync_rule_with-sip_trunk_id now u s [] = refl
  sync_rule_with-sip_trunk_id now u s (i ∷ is) =
      let out = delete_first api (recorded_id u.columns.row) u s in
      after_create-sip_trunk_id now out.1 (api.create_rule (rule_info out.1.columns (i ∷ is)) out.0)
      ∙ delete_first-sip_trunk_id (recorded_id u.columns.row) u s

  if_individual-sip_trunk_id :
      (individual : Bool) (shared out : S × Rule) {o : Option ℕ}
      → shared.1.sip_trunk_id ≡ o
      → out.1.sip_trunk_id ≡ o
      → (if not individual then shared else out).1.sip_trunk_id ≡ o
  if_individual-sip_trunk_id false shared out h k = h
  if_individual-sip_trunk_id true shared out h k = k

  apply_dispatch_rule_sync-sip_trunk_id :
      (now : ℕ) (trunks : List Trunk) (u : Rule) (s : S)
      → (apply_dispatch_rule_sync api now trunks u s).1.sip_trunk_id ≡ u.sip_trunk_id
  unfolding apply_dispatch_rule_sync
  apply_dispatch_rule_sync-sip_trunk_id now trunks u s =
      let u' = set_rule_row (record u.columns.row { sync_status = pending }) u in
      if_individual-sip_trunk_id u.is_individual (s, fail_rule shared_room u)
        (sync_rule_with api now u' s (trunk_ids_by_rule u trunks)) refl
        (sync_rule_with-sip_trunk_id now u' s (trunk_ids_by_rule u trunks))

module _ {S : Type 0} (api : SipService S) (laws : SipServiceLaws api) where
  abbrev create : ℕ → List Text → S × Rule → S × Rule
  create now trunk_ids out =
      after_create api now out.1 (api.create_rule (rule_info out.1.columns trunk_ids) out.0)

  create-IsCreated :
      (now : ℕ) (trunk_ids : List Text) (out : S × Rule)
      → is_synced (create now trunk_ids out).1.columns.row.sync_status ≡ true
      → IsCreated api trunk_ids (create now trunk_ids out)
  create-IsCreated now trunk_ids out h =
      after_create-IsCreated api now trunk_ids out.1
        (api.create_rule (rule_info out.1.columns trunk_ids) out.0)
        (λ kept s' k. laws.create_rule-IsRuleStored _ kept out.0 s' k) h

  sync_rule_with-IsCreated :
      (now : ℕ) (u : Rule) (s : S) (trunk_ids : List Text)
      → is_synced (sync_rule_with api now u s trunk_ids).1.columns.row.sync_status ≡ true
      → IsCreated api trunk_ids (sync_rule_with api now u s trunk_ids)
  sync_rule_with-IsCreated now u s [] h = absurd (ground arith)
  sync_rule_with-IsCreated now u s (i ∷ is) h =
      create-IsCreated now (i ∷ is) (delete_first api (recorded_id u.columns.row) u s) h

  if_individual-IsCreated :
      (trunk_ids : List Text) (individual : Bool) (shared out : S × Rule)
      → is_synced shared.1.columns.row.sync_status ≡ false
      → (is_synced out.1.columns.row.sync_status ≡ true → IsCreated api trunk_ids out)
      → is_synced (if not individual then shared else out).1.columns.row.sync_status ≡ true
      → IsCreated api trunk_ids (if not individual then shared else out)
  if_individual-IsCreated trunk_ids false shared out failed created h = absurd (ground arith)
  if_individual-IsCreated trunk_ids true shared out failed created h = created h

  apply_dispatch_rule_sync-IsCreated :
      (now : ℕ) (trunks : List Trunk) (u : Rule) (s : S)
      → is_synced (apply_dispatch_rule_sync api now trunks u s).1.columns.row.sync_status ≡ true
      → IsCreated api (trunk_ids_by_rule u trunks) (apply_dispatch_rule_sync api now trunks u s)
  unfolding apply_dispatch_rule_sync
  apply_dispatch_rule_sync-IsCreated now trunks u s h =
      let u' = set_rule_row (record u.columns.row { sync_status = pending }) u in
      if_individual-IsCreated (trunk_ids_by_rule u trunks) u.is_individual
        (s, fail_rule shared_room u) (sync_rule_with api now u' s (trunk_ids_by_rule u trunks)) refl
        (sync_rule_with-IsCreated now u' s (trunk_ids_by_rule u trunks)) h

  -- Once a dispatch rule is synchronised, the next check finds it so exactly if its trunk still has the
  -- LiveKit identifier that the rule was attached to, and drifted if the trunk has got another, has
  -- none or is gone by then; where LiveKit lists the rule as it was sent and the rules that it lists
  -- stay the same, the checked rows are told apart, and no other finding marks the rule.
  pub apply_dispatch_rule_sync-checked :
      (now later : ℕ) (trunks then_trunks : List Trunk) (u : Rule) (s s' : S)
      (rs : List (DispatchRule × List Text)) (others : List DriftFinding)
      → is_synced (apply_dispatch_rule_sync api now trunks u s).1.columns.row.sync_status ≡ true
      → api.list_rules s' ≡ api.list_rules (apply_dispatch_rule_sync api now trunks u s).0
      → are_distinct dispatch_rule rule_row rule_id rule_name match_rule rs ≡ true
      → Memᴰ
          (
            (apply_dispatch_rule_sync api now trunks u s).1.columns,
            trunk_ids_by_rule (apply_dispatch_rule_sync api now trunks u s).1 then_trunks,
          )
          rs
      → finding_of others (apply_dispatch_rule_sync api now trunks u s).1.columns.row.id ≡ none
      → (apply_to
          (compare_rules rs (list_dispatch_rules api s') ++ others)
          later
          (apply_dispatch_rule_sync api now trunks u s).1.columns.row).sync_status
        ≡ (if same_set (trunk_ids_by_rule u trunks) (trunk_ids_by_rule u then_trunks)
            then synced
            else drifted)
  unfolding rule_matches trunk_ids_by_rule
  apply_dispatch_rule_sync-checked now later trunks then_trunks u s s' rs others h listing d m f =
      let out = apply_dispatch_rule_sync api now trunks u s in
      let attached = trunk_ids_by_rule out.1 then_trunks in
      let p = apply_dispatch_rule_sync-IsCreated now trunks u s h in
      let e =
        apply_to-compare_rules rs (list_dispatch_rules api s') others (out.1.columns, attached)
          p.kept.sip_dispatch_rule_id later d m p.id f in
      let found =
        ap
          (λ l.
            live dispatch_rule rule_row rule_id rule_name match_rule (map dispatch_snapshot l)
              p.kept.sip_dispatch_rule_id)
          listing
        ∙ p.listed in
      let same =
        ap (trunk_ids_of then_trunks) (apply_dispatch_rule_sync-sip_trunk_id api now trunks u s) in
      let matched =
        ap
          (matches_live dispatch_rule rule_row rule_id rule_name match_rule
            (out.1.columns, attached))
          found
        ∙ (match_rule-IsCreated api (trunk_ids_by_rule u trunks) attached out p
            ∙ ap (same_set (trunk_ids_by_rule u trunks)) same) in
      e ∙ ap (λ b. if b then synced else drifted) matched
