-- ===== src/Tools/Placeholders.antt =====
-- The placeholders of a tool's templates and the check of its request schema: `extract_variables`,
-- `substitute` and `validate_request_schema` of services/shared/shared/tools.py. White space is exact on
-- ASCII, and a message keeps what it names.
use live_kit_voice_agent.Prelude.{
  ℕ, ◌-◌, Bool, ◌&&◌, ◌||◌, Option, none, some, List, [], ◌∷◌, ◌++◌, if◌then◌else◌, leb, ◌==◌, any,
  length, drop, zero, suc,
}
use live_kit_voice_agent.Prelude.Sorting.{sorted}
use live_kit_voice_agent.Prelude.Text.{Text, text, text_eq, text_le, starts_with, lstrip}
use live_kit_voice_agent.Tools.Runtime.{member}

-- `[a-zA-Z_]`
abbrev pub starts_name : ℕ → Bool
starts_name c = leb b'a' c && leb c b'z' || (leb b'A' c && leb c b'Z' || c == b'_')

-- `[a-zA-Z0-9_]`
abbrev pub continues_name : ℕ → Bool
continues_name c = starts_name c || (leb b'0' c && leb c b'9')

-- The longest start whose characters pass, and the rest.
abbrev pub span : (ℕ → Bool) → Text → Text × Text
span test [] = ([], [])
span test (c ∷ cs) =
    let rest = span test cs in if test c then (c ∷ rest.0, rest.1) else ([], c ∷ cs)

abbrev pub closing : Text → Text → Option (Text × Text)
closing name rest =
    if starts_with (lstrip rest) (text "}}") then some (name, drop 2 (lstrip rest)) else none

abbrev pub name_at : Text → Option (Text × Text)
name_at [] = none
name_at (c ∷ cs) =
    let found = span continues_name cs in
    if starts_name c then closing (c ∷ found.0) found.1 else none

-- A match of `VARIABLE` at the start of the text: the name, and what follows the match.
unfoldable pub match_at : Text → Option (Text × Text)
match_at t = if starts_with t (text "{{") then name_at (lstrip (drop 2 t)) else none

pub data Segment : Type 0 where
  literal : ℕ → Segment
  variable : Text → Segment

-- The matches from left to right, and the characters between them. The number is of the characters
-- that the last match still covers.
unfoldable pub scan : ℕ → Text → List Segment
unfolding match_at
scan k [] = []
scan (suc k) (c ∷ cs) = scan k cs
scan zero (c ∷ cs) =
    let apart = scan zero cs in
    elim (match_at (c ∷ cs)) [
      | none ↦ literal c ∷ apart
      | some (name, rest) ↦ variable name ∷ scan (length cs - length rest) cs
    ]

abbrev pub names : List Segment → List Text
names [] = []
names (literal c ∷ ss) = names ss
names (variable n ∷ ss) = n ∷ names ss

-- `VARIABLE.findall(text)` of every text.
abbrev pub found_in : List Text → List Text
found_in [] = []
found_in (t ∷ ts) = names (scan 0 t) ++ found_in ts

-- A set, as a list in which nothing stands twice.
abbrev pub distinct : List Text → List Text
distinct [] = []
distinct (x ∷ xs) = let rest = distinct xs in if any (text_eq x) xs then rest else x ∷ rest

unfoldable pub extract_variables : List Text → List Text
unfolding scan
extract_variables ts = sorted text_le (distinct (found_in ts))

pub data Filled : Type 0 where
  filled : Text → Filled
  unresolved : Text → Filled

abbrev pub before : Text → Filled → Filled
before t (filled rest) = filled (t ++ rest)
before t (unresolved n) = unresolved n

-- The values of the placeholders, where none is Python's, and `str` of the others.
module _ {V : Type 0} (str : V → Text) where
  abbrev pub value_of : Option (Option V) → Option V
  value_of none = none
  value_of (some none) = none
  value_of (some (some v)) = some v

  abbrev pub replace_with : Text → Option V → Filled → Filled
  replace_with n none rest = unresolved n
  replace_with n (some v) rest = before (str v) rest

  -- `VARIABLE.sub(repl, template)`
  unfoldable pub fill : List (Text × Option V) → List Segment → Filled
  fill values [] = filled []
  fill values (literal c ∷ ss) = before (c ∷ []) (fill values ss)
  fill values (variable n ∷ ss) = replace_with n (value_of (member values n)) (fill values ss)

  unfoldable pub substitute : List (Text × Option V) → Text → Filled
  unfolding fill scan
  substitute values template = fill values (scan 0 template)

abbrev pub context_variables : List Text
context_variables =
    text "caller_number" ∷ text "call_id" ∷ text "did" ∷ text "tenant_id" ∷ text "agent_name" ∷ []

-- `schema.get("type")`
pub data SchemaType : Type 0 where
  object_or_none other_type : SchemaType

-- A member that is missing or null, that is as it should be, or that is of another type.
pub data Member : Type 0 where
  missing malformed : Member
  listed : List Text → Member

-- `request_schema`: none or empty, no object, or an object with its type, the names of its properties
-- and what it requires.
pub data Schema : Type 0 where
  empty not_an_object : Schema
  object : SchemaType → Member → Member → Schema

pub data Verdict : Type 0 where
  valid : Verdict
  schema_not_an_object type_not_object properties_not_an_object required_not_a_list : Verdict
  undeclared_required undeclared_variables : List Text → Verdict

abbrev pub is_listed : List Text → Text → Bool
is_listed ns n = any (text_eq n) ns

abbrev pub without : List Text → List Text → List Text
without ns [] = []
without ns (x ∷ xs) = let rest = without ns xs in if is_listed ns x then rest else x ∷ rest

abbrev pub names_of : Member → List Text
names_of missing = []
names_of malformed = []
names_of (listed ns) = ns

abbrev pub valid_or : (List Text → Verdict) → List Text → Verdict → Verdict
valid_or problem [] rest = rest
valid_or problem (x ∷ xs) rest = problem (x ∷ xs)

-- `set(referenced) - declared - CONTEXT_VARIABLES`
abbrev pub check_referenced : List Text → List Text → Verdict
check_referenced declared referenced =
    valid_or undeclared_variables (without context_variables (without declared referenced)) valid

abbrev pub check_required : Member → List Text → List Text → Verdict
check_required missing declared referenced = check_referenced declared referenced
check_required malformed declared referenced = required_not_a_list
check_required (listed ns) declared referenced =
    valid_or undeclared_required (without declared ns) (check_referenced declared referenced)

abbrev pub check_properties : Member → Member → List Text → Verdict
check_properties malformed required referenced = properties_not_an_object
check_properties missing required referenced = check_required required [] referenced
check_properties (listed ns) required referenced = check_required required ns referenced

unfoldable pub validate_request_schema : Schema → List Text → Verdict
validate_request_schema empty referenced = check_referenced [] referenced
validate_request_schema not_an_object referenced = schema_not_an_object
validate_request_schema (object other_type properties required) referenced = type_not_object
validate_request_schema (object object_or_none properties required) referenced =
    check_properties properties required referenced

-- The properties that a schema declares.
abbrev pub declared_by : Schema → List Text
declared_by empty = []
declared_by not_an_object = []
declared_by (object type properties required) = names_of properties
