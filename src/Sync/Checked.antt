-- ===== src/Sync/Checked.antt =====
-- What a check for drift finds of a trunk that was synchronised.
use live_kit_voice_agent.Prelude.{
  ℕ, ◌≡◌, refl, ap, ◌∙◌, Bool, true, ◌&&◌, Option, none, some, List, [], ◌++◌, if◌then◌else◌, Memᴰ,
  arith,
}
use live_kit_voice_agent.Prelude.Text.{Text, text_eq}
use live_kit_voice_agent.Drift.Compare.{
  synced, drifted, SipTrunk, DriftFinding, sip_trunk, same_set, same_option, or_none, or_no_texts,
  trunk_matches, recorded_id, live, compare_trunks,
}
use live_kit_voice_agent.Drift.Report.{finding_of, apply_to}
use live_kit_voice_agent.Drift.Agreement.{
  trunk_row, trunk_id, trunk_name, match_trunk, matches_live,
}
use live_kit_voice_agent.Drift.Marks.{are_distinct, apply_to-compare_trunks}
use live_kit_voice_agent.Sync.LiveKit.{
  TrunkInfo, Reply, answers, raises, SipService, SipServiceLaws, IsStored, or_empty, trunk_snapshot,
  trunk_info, list_inbound_trunks,
}
use live_kit_voice_agent.Sync.Trunks.{
  PhoneNumber, accepted_numbers, numbers_by_trunk, Trunk, mark_pending, after_push, send, push,
  repair_first, sync_with, apply_trunk_sync,
}
use live_kit_voice_agent.Sync.Sameness.{
  is_synced, text_eq_refl, same_set_refl, same_or_empty, or_none-is_truthy,
}

conjunction :
    (a b c d x : Bool) → a ≡ true → b ≡ x → c ≡ true → d ≡ true → (a && (b && (c && d))) ≡ x
conjunction a b c d x h k l m = ground arith

module _ {S : Type 0} (api : SipService S) where
  -- LiveKit keeps the trunk of a row as the row says, with the numbers.
  record IsPushed (numbers : List Text) (out : S × Trunk) : Type 0 where
    kept : TrunkInfo
    id : recorded_id out.1.columns.row ≡ some kept.sip_trunk_id
    listed :
        live sip_trunk trunk_row trunk_id trunk_name match_trunk
          (list_inbound_trunks api out.0)
          kept.sip_trunk_id
        ≡ some (trunk_snapshot kept)
    name : kept.name ≡ out.1.columns.row.name
    numbers_kept : kept.numbers ≡ numbers
    addresses : kept.allowed_addresses ≡ or_no_texts out.1.columns.allowed_ips
    username : kept.auth_username ≡ or_empty out.1.columns.auth_username

  after_push-IsPushed :
      (now : ℕ) (i : Text) (numbers : List Text) (password : Option Text) (t : Trunk)
      (r : S × Reply TrunkInfo)
      → ((kept : TrunkInfo) (s : S)
          → r ≡ (s, answers kept)
          → IsStored api s
              (trunk_info i t.columns t.media_encryption_required numbers password)
              kept)
      → is_synced (after_push api now t r).1.columns.row.sync_status ≡ true
      → IsPushed numbers (after_push api now t r)
  unfolding trunk_info
  after_push-IsPushed now i numbers password t (s, raises e) stored h = absurd (ground arith)
  after_push-IsPushed now i numbers password t (s, answers kept) stored h =
      let k = stored kept s refl in
      record {
        kept = kept;
        id = ap (λ b. if b then some kept.sip_trunk_id else none) k.named;
        listed = k.listed;
        name = ap (λ x. x.name) k.same;
        numbers_kept = ap (λ x. x.numbers) k.same;
        addresses = ap (λ x. x.allowed_addresses) k.same;
        username = ap (λ x. x.auth_username) k.same;
      }

  match_trunk-IsPushed :
      (numbers others : List Text) (out : S × Trunk)
      → (p : IsPushed numbers out)
      → trunk_matches (trunk_snapshot p.kept) out.1.columns others ≡ same_set numbers others
  unfolding trunk_matches
  match_trunk-IsPushed numbers others out p =
      let t = out.1.columns in
      let k = trunk_snapshot p.kept in
      conjunction (text_eq k.name t.row.name) (same_set k.numbers others)
        (same_set k.allowed_addresses (or_no_texts t.allowed_ips))
        (same_option (or_none k.auth_username) (or_none t.auth_username)) (same_set numbers others)
        (ap (λ x. text_eq x t.row.name) p.name ∙ text_eq_refl t.row.name)
        (ap (λ x. same_set x others) p.numbers_kept)
        (ap (λ x. same_set x (or_no_texts t.allowed_ips)) p.addresses
          ∙ same_set_refl (or_no_texts t.allowed_ips))
        (ap (λ x. same_option (or_none (or_none (some x))) (or_none t.auth_username)) p.username
          ∙ same_or_empty t.auth_username)

module _ {S : Type 0} (api : SipService S) (laws : SipServiceLaws api) where
  send-IsPushed :
      (now : ℕ) (numbers : List Text) (password : Option Text) (t : Trunk) (s : S) (o : Option Text)
      → recorded_id t.columns.row ≡ o
      → is_synced (after_push api now t (send api t o numbers password s)).1.columns.row.sync_status
        ≡ true
      → IsPushed api numbers (after_push api now t (send api t o numbers password s))
  send-IsPushed now numbers password t s none e h =
      after_push-IsPushed api now [] numbers password t (send api t none numbers password s)
        (λ kept s' k. laws.create_trunk-IsStored _ kept s s' k) h
  send-IsPushed now numbers password t s (some i) e h =
      after_push-IsPushed api now i numbers password t (send api t (some i) numbers password s)
        (λ kept s' k.
          laws.update_trunk-IsStored i _ kept s s'
            (or_none-is_truthy t.columns.row.livekit_resource_id i e) k)
        h

  push-IsPushed :
      (now : ℕ) (numbers : List Text) (password : Option Text) (out : S × Trunk)
      → is_synced (push api now numbers password out.1 out.0).1.columns.row.sync_status ≡ true
      → IsPushed api numbers (push api now numbers password out.1 out.0)
  unfolding push
  push-IsPushed now numbers password out h =
      send-IsPushed now numbers password out.1 out.0 (recorded_id out.1.columns.row) refl h

  sync_with-IsPushed :
      (now : ℕ) (repair : Bool) (numbers : List Text) (t : Trunk) (s : S)
      (password : Reply (Option Text))
      → is_synced (sync_with api now repair numbers t s password).1.columns.row.sync_status ≡ true
      → IsPushed api numbers (sync_with api now repair numbers t s password)
  sync_with-IsPushed now repair numbers t s (raises e) h = absurd (ground arith)
  sync_with-IsPushed now repair numbers t s (answers password) h =
      push-IsPushed now numbers password (repair_first api repair (recorded_id t.columns.row) t s) h

  apply_trunk_sync-IsPushed :
      (now : ℕ) (repair : Bool) (ns : List PhoneNumber) (password : Reply (Option Text)) (t : Trunk)
      (s : S)
      → is_synced (apply_trunk_sync api now repair ns password t s).1.columns.row.sync_status ≡ true
      → IsPushed api
          (accepted_numbers t.columns.row.id ns)
          (apply_trunk_sync api now repair ns password t s)
  unfolding apply_trunk_sync
  apply_trunk_sync-IsPushed now repair ns password t s h =
      sync_with-IsPushed now repair (accepted_numbers t.columns.row.id ns) (mark_pending t) s
        password h

  -- Once a trunk is synchronised, in place, anew or in a repair, the next check finds it so exactly if
  -- the active numbers of the trunk are all its numbers, and drifted if one of them is disabled; where
  -- LiveKit lists what it was sent and then nothing else is changed, the checked rows are told apart,
  -- and no other finding marks the trunk.
  pub apply_trunk_sync-checked :
      (now later : ℕ) (repair : Bool) (ns : List PhoneNumber) (password : Reply (Option Text))
      (t : Trunk) (s : S) (ts : List (SipTrunk × List Text)) (others : List DriftFinding)
      → is_synced (apply_trunk_sync api now repair ns password t s).1.columns.row.sync_status ≡ true
      → are_distinct sip_trunk trunk_row trunk_id trunk_name match_trunk ts ≡ true
      → Memᴰ
          (
            (apply_trunk_sync api now repair ns password t s).1.columns,
            numbers_by_trunk t.columns.row.id ns,
          )
          ts
      → finding_of others (apply_trunk_sync api now repair ns password t s).1.columns.row.id ≡ none
      → (apply_to
          (compare_trunks ts
              (list_inbound_trunks api (apply_trunk_sync api now repair ns password t s).0)
            ++ others)
          later
          (apply_trunk_sync api now repair ns password t s).1.columns.row).sync_status
        ≡ (if same_set (accepted_numbers t.columns.row.id ns) (numbers_by_trunk t.columns.row.id ns)
            then synced
            else drifted)
  unfolding trunk_matches
  apply_trunk_sync-checked now later repair ns password t s ts others h d m f =
      let out = apply_trunk_sync api now repair ns password t s in
      let numbers = numbers_by_trunk t.columns.row.id ns in
      let p = apply_trunk_sync-IsPushed now repair ns password t s h in
      let e =
        apply_to-compare_trunks ts (list_inbound_trunks api out.0) others (out.1.columns, numbers)
          p.kept.sip_trunk_id later d m p.id f in
      let matched =
        ap
          (matches_live sip_trunk trunk_row trunk_id trunk_name match_trunk
            (out.1.columns, numbers))
          p.listed
        ∙ match_trunk-IsPushed api (accepted_numbers t.columns.row.id ns) numbers out p in
      e ∙ ap (λ b. if b then synced else drifted) matched
