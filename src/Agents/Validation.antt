-- ===== src/Agents/Validation.antt =====
-- `_validate_version` and `_validate_references` of services/configuration-api/app/api/v1/agents.py.
-- A message is told by its kind.
use live_kit_voice_agent.Prelude.{
  ℕ, Bool, true, false, not, ◌&&◌, Option, none, some, List, [], ◌∷◌, ◌++◌, ◌==◌, if◌then◌else◌,
  find, is_some, any,
}
use live_kit_voice_agent.Prelude.Sorting.{all}
use live_kit_voice_agent.Prelude.Text.{Text, strip, is_truthy}
use live_kit_voice_agent.Models.{is_active}
use live_kit_voice_agent.Agents.Catalog.{
  Provider, Voice, KnowledgeBase, Tool, Catalog, Tier, stt, llm, tts, Choice, Config, Grant, Change,
  set_provider_id, set_model_id, set_voice_id, set_knowledge_base_id, set_embedding_provider_id,
  set_embedding_model_id,
}

pub data Field : Type 0 where
  system_prompt voice_id transfer_announcement_text knowledge_base_id embedding_provider_id : Field
  tool_ids : Field
  provider_id model_id : Tier → Field

pub data Message : Type 0 where
  prompt_required choose_provider provider_gone provider_unusable no_credential choose_model :
      Message
  choose_voice no_voices voice_gone voice_disabled no_announcement base_gone : Message
  base_disabled no_embedding_provider tool_unusable tool_invalid ready : Message

-- `severity`, `"error"` where the source gives none.
pub data Severity : Type 0 where
  error warning ok : Severity

-- A `ValidationIssue`, in the list of issues or in that of dependencies.
pub data Entry : Type 0 where
  issue dependency : Field → Message → Severity → Entry

abbrev pub is_error : Entry → Bool
is_error (issue _ _ error) = true
is_error (issue _ _ warning) = false
is_error (issue _ _ ok) = false
is_error (dependency _ _ _) = false

abbrev pub or_empty : Option Text → Text
or_empty none = []
or_empty (some t) = t

abbrev pub provider_row : Catalog → ℕ → Option Provider
provider_row c i = find (λ p. p.id == i) c.providers

abbrev pub voice_row : Catalog → ℕ → Option Voice
voice_row c i = find (λ v. v.id == i) c.voices

abbrev pub base_row : Catalog → ℕ → Option KnowledgeBase
base_row c i = find (λ b. b.id == i) c.knowledge_bases

abbrev pub tool_row : Catalog → ℕ → Option Tool
tool_row c i = find (λ t. t.id == i) c.tools

-- `credential is not None`
abbrev pub has_credential : Catalog → ℕ → Bool
has_credential c i = any (λ k. k.provider_id == i && is_active k.status) c.credentials

unfoldable pub check_prompt : Text → List Entry
check_prompt t = if is_truthy (strip t) then [] else issue system_prompt prompt_required error ∷ []

-- The part of `check_provider` after the provider is read.
unfoldable pub check_row : Catalog → Tier → Option Provider → Option ℕ → List Entry
check_row c t none model = issue (provider_id t) provider_gone error ∷ []
check_row c t (some p) model =
    if not (is_active p.status)
    then issue (provider_id t) provider_unusable error
      ∷ dependency (provider_id t) provider_unusable error
      ∷ []
    else if not (has_credential c p.id) && p.requires_credential
    then issue (provider_id t) no_credential error
      ∷ dependency (provider_id t) no_credential error
      ∷ []
    else if not (is_some model)
    then issue (model_id t) choose_model error ∷ []
    else dependency (provider_id t) ready ok ∷ []

-- `check_provider`
unfoldable pub check_provider : Catalog → Tier → Choice → List Entry
unfolding check_row
check_provider c t choice = elim choice.provider_id [
  | none ↦
      issue (provider_id t) choose_provider error
      ∷ dependency (provider_id t) choose_provider error
      ∷ []
  | some i ↦ check_row c t (provider_row c i) choice.model_id
]

-- The chosen voice.
unfoldable pub check_chosen_voice : Option Voice → List Entry
check_chosen_voice none = issue voice_id voice_gone error ∷ []
check_chosen_voice (some v) =
    if is_active v.status
    then dependency voice_id ready ok ∷ []
    else issue voice_id voice_disabled error ∷ []

-- `available_voices`, as a truth value.
abbrev pub has_voices : Catalog → ℕ → Bool
has_voices c i = any (λ v. v.provider_id == i && is_active v.status) c.voices

unfoldable pub check_voice : Catalog → Option ℕ → Option ℕ → List Entry
unfolding check_chosen_voice
check_voice c (some i) none =
    if has_voices c i
    then issue voice_id choose_voice error ∷ []
    else issue voice_id no_voices warning ∷ []
check_voice c none none = []
check_voice c provider (some v) = check_chosen_voice (voice_row c v)

unfoldable pub check_transfer : Bool → Option Text → List Entry
check_transfer enabled announcement =
    if enabled && not (is_truthy (strip (or_empty announcement)))
    then issue transfer_announcement_text no_announcement error ∷ []
    else []

unfoldable pub check_base_row : Option KnowledgeBase → List Entry
check_base_row none = issue knowledge_base_id base_gone error ∷ []
check_base_row (some b) =
    if is_active b.status then [] else issue knowledge_base_id base_disabled error ∷ []

unfoldable pub check_base : Catalog → Option ℕ → Option ℕ → List Entry
unfolding check_base_row
check_base c none embedding = []
check_base c (some i) embedding =
    check_base_row (base_row c i)
    ++ (if is_some embedding
        then []
        else issue embedding_provider_id no_embedding_provider warning ∷ [])

-- A grant is joined with its tool.
unfoldable pub check_tool : Option Tool → List Entry
check_tool none = []
check_tool (some t) =
    if not (is_active t.status)
    then issue tool_ids tool_unusable error ∷ []
    else if not t.schema_valid
    then issue tool_ids tool_invalid error ∷ []
    else dependency tool_ids ready ok ∷ []

unfoldable pub check_tools : Catalog → List Grant → List Entry
unfolding check_tool
check_tools c [] = []
check_tools c (g ∷ gs) =
    (if g.enabled then check_tool (tool_row c g.tool_id) else []) ++ check_tools c gs

-- The issues and the dependencies of `_validate_version`, in the order in which it notes them.
unfoldable pub validate_version : Catalog → Config → List Grant → List Entry
unfolding check_prompt check_provider check_voice check_transfer check_base check_tools
validate_version c v grants =
    check_prompt v.system_prompt
    ++ (check_provider c stt (v.choice stt)
        ++ (check_provider c llm (v.choice llm)
            ++ (check_provider c tts (v.choice tts)
                ++ (check_voice c (v.choice tts).provider_id (v.choice tts).voice_id
                    ++ (check_transfer v.transfer_enabled v.transfer_announcement_text
                        ++ (check_base c v.knowledge_base_id v.embedding_provider_id
                            ++ check_tools c grants))))))

-- `report.publishable`
unfoldable pub is_publishable : List Entry → Bool
is_publishable entries = not (any is_error entries)

-- `report.issues`
abbrev pub issues : List Entry → List Entry
issues [] = []
issues (issue f m s ∷ entries) = issue f m s ∷ issues entries
issues (dependency f m s ∷ entries) = issues entries

-- A reference that is set to NULL is not looked up.
abbrev pub exists_or_null : (ℕ → Bool) → Option ℕ → Bool
exists_or_null test none = true
exists_or_null test (some i) = test i

abbrev pub has_model : Catalog → ℕ → Bool
has_model c i = any (λ m. m == i) c.models

-- The row that a change refers to exists.
abbrev pub reference_exists : Catalog → Change → Bool
reference_exists c (set_provider_id t value) =
    exists_or_null (λ i. is_some (provider_row c i)) value
reference_exists c (set_model_id t value) = exists_or_null (has_model c) value
reference_exists c (set_voice_id t value) = exists_or_null (λ i. is_some (voice_row c i)) value
reference_exists c (set_knowledge_base_id value) =
    exists_or_null (λ i. is_some (base_row c i)) value
reference_exists c (set_embedding_provider_id value) =
    exists_or_null (λ i. is_some (provider_row c i)) value
reference_exists c (set_embedding_model_id value) = exists_or_null (has_model c) value
reference_exists c _ = true

abbrev pub tools_exist : Catalog → Option (List ℕ) → Bool
tools_exist c none = true
tools_exist c (some ids) = all (λ i. is_some (tool_row c i)) ids

-- `_validate_references`, which raises where this is false.
unfoldable pub validate_references : Catalog → List Change → Option (List ℕ) → Bool
validate_references c changes ids = all (reference_exists c) changes && tools_exist c ids
