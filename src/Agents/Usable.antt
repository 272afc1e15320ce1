-- ===== src/Agents/Usable.antt =====
-- What the validation of a version lets through.
use live_kit_voice_agent.Prelude.{
  ℕ, ◌≡◌, ◌↔◌, refl, sym, ◌∙◌, Bool, true, false, not, ◌&&◌, ◌||◌, Option, none, some, List, [],
  ◌∷◌, ◌++◌, if◌then◌else◌, is_some, arith, Bool-cases, Option-cases, inl, inr,
}
use live_kit_voice_agent.Prelude.Sorting.{all}
use live_kit_voice_agent.Prelude.Text.{Text, strip, is_truthy}
use live_kit_voice_agent.Models.{is_active}
use live_kit_voice_agent.Agents.Catalog.{
  Provider, Voice, KnowledgeBase, Tool, Catalog, Tier, stt, llm, tts, Choice, Config, Grant,
}
use live_kit_voice_agent.Agents.Validation.{
  Entry, issue, warning, embedding_provider_id, no_embedding_provider, or_empty, provider_row,
  voice_row, base_row, tool_row, has_credential, has_voices, check_prompt, check_row,
  check_provider, check_chosen_voice, check_voice, check_transfer, check_base_row, check_base,
  check_tool, check_tools, validate_version, is_publishable,
}

-- An active provider, whose credential is active if it needs one.
abbrev pub can_serve : Catalog → Option Provider → Bool
can_serve c none = false
can_serve c (some p) = is_active p.status && (has_credential c p.id || not p.requires_credential)

-- A tier with an active provider and a model.
abbrev pub is_ready : Catalog → Choice → Bool
is_ready c choice = elim choice.provider_id [
  | none ↦ false
  | some i ↦ can_serve c (provider_row c i) && is_some choice.model_id
]

abbrev pub is_active_voice : Option Voice → Bool
is_active_voice none = false
is_active_voice (some v) = is_active v.status

-- The chosen voice is active. None need be chosen where the provider has no active one.
abbrev pub can_speak : Catalog → Option ℕ → Option ℕ → Bool
can_speak c none none = true
can_speak c (some i) none = not (has_voices c i)
can_speak c provider (some v) = is_active_voice (voice_row c v)

abbrev pub is_active_base : Option KnowledgeBase → Bool
is_active_base none = false
is_active_base (some b) = is_active b.status

abbrev pub can_read : Catalog → Option ℕ → Bool
can_read c none = true
can_read c (some i) = is_active_base (base_row c i)

-- A tool that the tenant does not have is not granted.
abbrev pub is_callable : Option Tool → Bool
is_callable none = true
is_callable (some t) = is_active t.status && t.schema_valid

abbrev pub is_usable_grant : Catalog → Grant → Bool
is_usable_grant c g = not g.enabled || is_callable (tool_row c g.tool_id)

-- The conditions of the validation on a configuration and its tools.
pub record IsUsable (c : Catalog) (v : Config) (grants : List Grant) : Type 0 where
  pub prompt : is_truthy (strip v.system_prompt) ≡ true
  pub hears : is_ready c (v.choice stt) ≡ true
  pub thinks : is_ready c (v.choice llm) ≡ true
  pub talks : is_ready c (v.choice tts) ≡ true
  pub voice : can_speak c (v.choice tts).provider_id (v.choice tts).voice_id ≡ true
  pub announces :
      (not v.transfer_enabled || is_truthy (strip (or_empty v.transfer_announcement_text))) ≡ true
  pub reads : can_read c v.knowledge_base_id ≡ true
  pub tools : all (is_usable_grant c) grants ≡ true

is_publishable-append :
    (xs ys : List Entry) → is_publishable (xs ++ ys) ≡ (is_publishable xs && is_publishable ys)
unfolding is_publishable
is_publishable-append [] ys = refl
is_publishable-append (x ∷ xs) ys = let rest = is_publishable-append xs ys in ground (arith, rest)

is_publishable-check_prompt : (t : Text) → is_publishable (check_prompt t) ≡ is_truthy (strip t)
unfolding is_publishable check_prompt
is_publishable-check_prompt t = elim (Bool-cases (is_truthy (strip t))) [
  | inl e ↦ rw e refl
  | inr e ↦ rw e refl
]

is_publishable-check_row :
    (c : Catalog) (t : Tier) (o : Option Provider) (model : Option ℕ)
    → is_publishable (check_row c t o model) ≡ (can_serve c o && is_some model)
unfolding is_publishable check_row
is_publishable-check_row c t none model = refl
is_publishable-check_row c t (some p) model = ground arith

is_publishable-check_provider :
    (c : Catalog) (t : Tier) (choice : Choice)
    → is_publishable (check_provider c t choice) ≡ is_ready c choice
unfolding is_publishable check_provider
is_publishable-check_provider c t choice = elim (Option-cases choice.provider_id) [
  | inl e ↦ rw e refl
  | inr (i, e) ↦ rw e (is_publishable-check_row c t (provider_row c i) choice.model_id)
]

is_publishable-check_chosen_voice :
    (o : Option Voice) → is_publishable (check_chosen_voice o) ≡ is_active_voice o
unfolding is_publishable check_chosen_voice
is_publishable-check_chosen_voice none = refl
is_publishable-check_chosen_voice (some v) = ground arith

is_publishable-check_voice :
    (c : Catalog) (provider voice : Option ℕ)
    → is_publishable (check_voice c provider voice) ≡ can_speak c provider voice
unfolding is_publishable check_voice
is_publishable-check_voice c (some i) none = ground arith
is_publishable-check_voice c none none = refl
is_publishable-check_voice c provider (some v) = is_publishable-check_chosen_voice (voice_row c v)

is_publishable-check_transfer :
    (enabled : Bool) (announcement : Option Text)
    → is_publishable (check_transfer enabled announcement)
      ≡ (not enabled || is_truthy (strip (or_empty announcement)))
unfolding is_publishable check_transfer
is_publishable-check_transfer enabled announcement = ground arith

is_publishable-check_base_row :
    (o : Option KnowledgeBase) → is_publishable (check_base_row o) ≡ is_active_base o
unfolding is_publishable check_base_row
is_publishable-check_base_row none = refl
is_publishable-check_base_row (some b) = ground arith

is_publishable-check_base :
    (c : Catalog) (base embedding : Option ℕ)
    → is_publishable (check_base c base embedding) ≡ can_read c base
unfolding is_publishable check_base
is_publishable-check_base c none embedding = refl
is_publishable-check_base c (some i) embedding =
    let row = is_publishable-check_base_row (base_row c i) in
    let split = is_publishable-append (check_base_row (base_row c i)) (
      if is_some embedding
      then []
      else issue embedding_provider_id no_embedding_provider warning ∷ []) in
    ground (arith, row, split)

is_publishable-check_tool : (o : Option Tool) → is_publishable (check_tool o) ≡ is_callable o
unfolding is_publishable check_tool
is_publishable-check_tool none = refl
is_publishable-check_tool (some t) = ground arith

is_publishable-check_tools :
    (c : Catalog) (grants : List Grant)
    → is_publishable (check_tools c grants) ≡ all (is_usable_grant c) grants
unfolding is_publishable check_tools
is_publishable-check_tools c [] = refl
is_publishable-check_tools c (g ∷ gs) =
    let here = is_publishable-check_tool (tool_row c g.tool_id) in
    let rest = is_publishable-check_tools c gs in
    let split =
      is_publishable-append (if g.enabled then check_tool (tool_row c g.tool_id) else [])
        (check_tools c gs) in
    ground (arith, here, rest, split)

is_publishable-validate_version :
    (c : Catalog) (v : Config) (grants : List Grant)
    → is_publishable (validate_version c v grants) ≡ (
        is_truthy (strip v.system_prompt)
        && (is_ready c (v.choice stt)
            && (is_ready c (v.choice llm)
                && (is_ready c (v.choice tts)
                    && (can_speak c (v.choice tts).provider_id (v.choice tts).voice_id
                        && ((not v.transfer_enabled
                              || is_truthy (strip (or_empty v.transfer_announcement_text)))
                            && (can_read c v.knowledge_base_id
                                && all (is_usable_grant c) grants)))))))
unfolding validate_version
is_publishable-validate_version c v grants =
    rw
      (
        is_publishable-append (check_prompt v.system_prompt) _,
        is_publishable-append (check_provider c stt (v.choice stt)) _,
        is_publishable-append (check_provider c llm (v.choice llm)) _,
        is_publishable-append (check_provider c tts (v.choice tts)) _,
        is_publishable-append (check_voice c (v.choice tts).provider_id (v.choice tts).voice_id) _,
        is_publishable-append (check_transfer v.transfer_enabled v.transfer_announcement_text) _,
        is_publishable-append (check_base c v.knowledge_base_id v.embedding_provider_id) _,
        is_publishable-check_prompt v.system_prompt,
        is_publishable-check_provider c stt (v.choice stt),
        is_publishable-check_provider c llm (v.choice llm),
        is_publishable-check_provider c tts (v.choice tts),
        is_publishable-check_voice c (v.choice tts).provider_id (v.choice tts).voice_id,
        is_publishable-check_transfer v.transfer_enabled v.transfer_announcement_text,
        is_publishable-check_base c v.knowledge_base_id v.embedding_provider_id,
        is_publishable-check_tools c grants,
      )
      refl

-- The entries of the validation have no error exactly if all its conditions hold.
pub validate_version-IsUsable :
    (c : Catalog) (v : Config) (grants : List Grant)
    → (is_publishable (validate_version c v grants) ≡ true) ↔ IsUsable c v grants
validate_version-IsUsable c v grants =
    let e = is_publishable-validate_version c v grants in
    (
      λ h.
          (let k = sym e ∙ h in
            record {
              prompt = ground (arith, k);
              hears = ground (arith, k);
              thinks = ground (arith, k);
              talks = ground (arith, k);
              voice = ground (arith, k);
              announces = ground (arith, k);
              reads = ground (arith, k);
              tools = ground (arith, k);
            }),
      λ u.
          e
          ∙ (let p = u.prompt in
              let q = u.hears in
              let r = u.thinks in
              let s = u.talks in
              let t = u.voice in
              let w = u.announces in
              let x = u.reads in let y = u.tools in ground (arith, p, q, r, s, t, w, x, y)),
    )
