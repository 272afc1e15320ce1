-- ===== src/Tools/Runtime.antt =====
-- `ToolRuntime` of services/ai-agent-worker/worker/tools/executor.py and `missing_required_arguments` of
-- services/shared/shared/tools.py. A JSON value is an argument's type, with the tests that the code
-- makes: that it is null or the empty text, and `==`. What a tool does when it is run is an argument.
use live_kit_voice_agent.Prelude.{
  ℕ, ◌+◌, Bool, true, false, Option, none, some, List, [], ◌∷◌, if◌then◌else◌, leb,
}
use live_kit_voice_agent.Prelude.Text.{Text, text_eq}

-- The values of a JSON object's members.
pub record Json (V : Type 0) : Type 0 where
  pub is_blank : V → Bool  -- `value is None or value == ""`
  pub same : V → V → Bool

abbrev pub member {ℓ} : {A : Type ℓ} → List (Text × A) → Text → Option A
member [] key = none
member ((k, v) ∷ rest) key = if text_eq k key then some v else member rest key

-- `schema.get("required")`: none where it is missing or no list; an item is a text or something else.
abbrev pub Required : Type 0
Required = Option (List (Option Text))

module _ {V : Type 0} (json : Json V) where
  abbrev pub is_missing : Option V → Bool
  is_missing none = true
  is_missing (some v) = json.is_blank v

  abbrev pub missing_of : List (Option Text) → List (Text × V) → List Text
  missing_of [] arguments = []
  missing_of (none ∷ names) arguments = missing_of names arguments
  missing_of (some n ∷ names) arguments =
      let rest = missing_of names arguments in
      if is_missing (member arguments n) then n ∷ rest else rest

  -- `missing_required_arguments`
  unfoldable pub missing_required_arguments : Required → List (Text × V) → List Text
  missing_required_arguments none arguments = []
  missing_required_arguments (some names) arguments = missing_of names arguments

  -- `key in arguments and arguments[key] == denied`
  abbrev pub is_denied : Option V → V → Bool
  is_denied none denied = false
  is_denied (some v) denied = json.same v denied

  -- The loop over the denied arguments: the first that is given.
  unfoldable pub denied_argument : List (Text × V) → List (Text × V) → Option Text
  denied_argument [] arguments = none
  denied_argument ((key, denied) ∷ rest) arguments =
      if is_denied (member arguments key) denied then some key else denied_argument rest arguments

-- `ToolDefinition`, as far as the runtime reads it.
pub record ToolDefinition (V : Type 0) : Type 0 where
  pub name : Text
  pub required : Required
  pub denied_arguments : List (Text × V)
  pub max_calls_per_conversation : Option ℕ
  pub is_builtin : Bool

-- What the run of a tool comes to: a result, a `ToolHttpError` or another exception.
pub data Execution : Type 0 where
  returns : Execution
  http_error : Text → Execution
  fails : Execution

-- The `ok: False` answers before the tool is run, and the answer of the run.
pub data Response : Type 0 where
  not_granted : Response
  missing_arguments : List Text → Response
  not_permitted : Text → Response
  called_too_often : Response
  executed : Execution → Response

-- `self._counts`
abbrev pub Counts : Type 0
Counts = List (Text × ℕ)

-- `self._counts.get(name, 0)`
abbrev pub count_of : Counts → Text → ℕ
count_of counts name = elim (member counts name) [ none ↦ 0 | some n ↦ n ]

-- `self._counts[name] = n`
abbrev pub set_count : Counts → Text → ℕ → Counts
set_count [] name n = (name, n) ∷ []
set_count ((k, m) ∷ rest) name n =
    if text_eq k name then (k, n) ∷ rest else (k, m) ∷ set_count rest name n

-- `self._by_name`, in which a later tool replaces an earlier one of its name.
abbrev pub by_name : {V : Type 0} → List (ToolDefinition V) → Text → Option (ToolDefinition V)
by_name [] name = none
by_name (d ∷ ds) name = elim (by_name ds name) [
  | some later ↦ some later
  | none ↦ if text_eq d.name name then some d else none
]

-- `limit is not None and used >= limit`
abbrev pub is_used_up : Option ℕ → ℕ → Bool
is_used_up none used = false
is_used_up (some limit) used = leb limit used

module _ {V : Type 0} (json : Json V) (run : ToolDefinition V → List (Text × V) → Execution) where
  -- The part of `invoke` that follows its checks: the missing arguments, the denied one and whether the
  -- calls are used up.
  unfoldable pub invoke_checked :
      ToolDefinition V
      → Counts
      → Text
      → List (Text × V)
      → List Text
      → Option Text
      → Bool
      → Response × Counts
  invoke_checked d counts name arguments (m ∷ ms) denied used_up =
      (missing_arguments (m ∷ ms), counts)
  invoke_checked d counts name arguments [] (some key) used_up = (not_permitted key, counts)
  invoke_checked d counts name arguments [] none true = (called_too_often, counts)
  invoke_checked d counts name arguments [] none false =
      (executed (run d arguments), set_count counts name (count_of counts name + 1))

  -- The part of `invoke` that follows the look-up of the definition.
  unfoldable pub invoke_found :
      Option (ToolDefinition V) → Counts → Text → List (Text × V) → Response × Counts
  unfolding missing_required_arguments denied_argument invoke_checked
  invoke_found none counts name arguments = (not_granted, counts)
  invoke_found (some d) counts name arguments =
      invoke_checked d counts name arguments (missing_required_arguments json d.required arguments)
        (denied_argument json d.denied_arguments arguments)
        (is_used_up d.max_calls_per_conversation (count_of counts name))

  -- `invoke`
  unfoldable pub invoke :
      List (ToolDefinition V) → Counts → Text → List (Text × V) → Response × Counts
  unfolding invoke_found
  invoke tools counts name arguments = invoke_found (by_name tools name) counts name arguments

  -- The calls of a conversation, in order, with the answer to each.
  unfoldable pub converse :
      List (ToolDefinition V) → Counts → List (Text × List (Text × V)) → List (Text × Response)
  unfolding invoke
  converse tools counts [] = []
  converse tools counts ((name, arguments) ∷ calls) =
      let (response, after) = invoke tools counts name arguments in
      (name, response) ∷ converse tools after calls
