-- ===== src/Tools/Tests.antt =====
-- A conversation in which a tool with a limit of one call is called twice, and one that is not granted.
use live_kit_voice_agent.Prelude.{Option, Memᴰ, ℕ, ◌≤◌, ◌≡◌, refl, false, some, List, [], ◌∷◌, ◌==◌}
use live_kit_voice_agent.Prelude.Text.{Text, text}
use live_kit_voice_agent.Prelude.Sorting.{sorted, insert}
use live_kit_voice_agent.Tools.Placeholders.{
  listed, Schema, object, object_or_none, valid, validate_request_schema, extract_variables, filled,
  substitute,
}
use live_kit_voice_agent.Tools.Filling.{substitute-validate_request_schema}
use live_kit_voice_agent.Tools.Runtime.{
  Json, ToolDefinition, Execution, returns, executed, called_too_often, not_granted, converse,
  invoke, invoke_found, invoke_checked, missing_required_arguments, denied_argument,
}
use live_kit_voice_agent.Tools.Limits.{Invoked, executions, invoke-Invoked, converse_within_limit}

abbrev json : Json ℕ
json = record { is_blank = λ n. n == 0; same = ◌==◌ }

abbrev look_up : ToolDefinition ℕ
look_up = record {
  name = text "look_up";
  required = some (some (text "id") ∷ []);
  denied_arguments = (text "id", 13) ∷ [];
  max_calls_per_conversation = some 1;
  is_builtin = false;
}

abbrev run_tool : ToolDefinition ℕ → List (Text × ℕ) → Execution
run_tool d arguments = returns

abbrev calls : List (Text × List (Text × ℕ))
calls =
    (text "look_up", (text "id", 5) ∷ [])
    ∷ (text "look_up", (text "id", 6) ∷ [])
    ∷ (text "other", [])
    ∷ []

answered :
    converse json run_tool (look_up ∷ []) [] calls
    ≡ (text "look_up", executed returns)
      ∷ (text "look_up", called_too_often)
      ∷ (text "other", not_granted)
      ∷ []
unfolding converse invoke invoke_found invoke_checked missing_required_arguments denied_argument
answered = refl

invoke-Invoked_example :
    Invoked json run_tool
      (look_up ∷ [])
      []
      (text "look_up")
      ((text "id", 5) ∷ [])
      (invoke json run_tool (look_up ∷ []) [] (text "look_up") ((text "id", 5) ∷ []))
invoke-Invoked_example =
    invoke-Invoked json run_tool (look_up ∷ []) [] (text "look_up") ((text "id", 5) ∷ [])

converse_within_limit_example :
    executions (text "look_up") (converse json run_tool (look_up ∷ []) [] calls) ≤ 1
converse_within_limit_example =
    converse_within_limit json run_tool (look_up ∷ []) calls (text "look_up") 1 look_up refl refl

abbrev template : Text
template = text "a/{{ id }}?{{did}}"

abbrev schema : Schema
schema = object object_or_none (listed (text "id" ∷ [])) (listed (text "id" ∷ []))

abbrev values : List (Text × Option Text)
values =
    (text "id", some (text "7"))
    ∷ (text "did", some (text "8"))
    ∷ (text "call_id", some (text "9"))
    ∷ (text "caller_number", some (text "1"))
    ∷ (text "tenant_id", some (text "2"))
    ∷ (text "agent_name", some (text "3"))
    ∷ []

accepted : validate_request_schema schema (extract_variables (template ∷ [])) ≡ valid
unfolding validate_request_schema extract_variables sorted insert
accepted = refl

filled_template : substitute (λ t. t) values template ≡ filled (text "a/7?8")
unfolding substitute
filled_template = refl

substitute-validate_request_schema_example :
    (out : Text) × (substitute (λ t. t) values template ≡ filled out)
substitute-validate_request_schema_example =
    substitute-validate_request_schema (λ t. t) values schema (template ∷ []) template accepted
      (Memᴰ.head refl) refl refl
