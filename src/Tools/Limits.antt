-- ===== src/Tools/Limits.antt =====
-- Which calls are run, and how often.
use live_kit_voice_agent.Prelude.{
  ℕ, ◌+◌, ◌≤◌, ◌<◌, ◌≡◌, refl, sym, ap, ◌∙◌, Bool, true, false, ◌&&◌, Option, none, some, List, [],
  ◌∷◌, if◌then◌else◌, arith, Bool-cases, inl, inr,
}
use live_kit_voice_agent.Prelude.Text.{Text, text_eq, text_eq_iff}
use live_kit_voice_agent.Tools.Runtime.{
  Json, missing_required_arguments, denied_argument, ToolDefinition, Execution, Response,
  not_granted, missing_arguments, not_permitted, called_too_often, executed, invoke_checked,
  invoke_found, Counts, count_of, set_count, by_name, is_used_up, invoke, converse,
}

text_eq_refl : (t : Text) → text_eq t t ≡ true
text_eq_refl t = (text_eq_iff t t).1 refl

count_of-set_count :
    (counts : Counts) (name : Text) (n : ℕ) → count_of (set_count counts name n) name ≡ n
count_of-set_count [] name n = let e = text_eq_refl name in ground (arith, e)
count_of-set_count ((k, m) ∷ rest) name n =
    let e = count_of-set_count rest name n in ground (arith, e)

count_of-set_count_other :
    (counts : Counts) (name other : Text) (n : ℕ)
    → text_eq name other ≡ false
    → count_of (set_count counts name n) other ≡ count_of counts other
count_of-set_count_other [] name other n h = ground arith
count_of-set_count_other ((k, m) ∷ rest) name other n h = elim (Bool-cases (text_eq k name)) [
  | inl same ↦
      let differs : text_eq k other ≡ false = rw ((text_eq_iff k name).0 same) h in
      ground (arith, same, differs)
  | inr differs ↦ let e = count_of-set_count_other rest name other n h in ground (arith, e, differs)
]

abbrev pub is_executed : Response → Bool
is_executed (executed e) = true
is_executed not_granted = false
is_executed (missing_arguments names) = false
is_executed (not_permitted key) = false
is_executed called_too_often = false

-- How often a tool was run in a conversation.
abbrev pub executions : Text → List (Text × Response) → ℕ
executions name [] = 0
executions name ((n, r) ∷ rest) =
    let others = executions name rest in
    if text_eq n name && is_executed r then 1 + others else others

module _ {V : Type 0} (json : Json V) (run : ToolDefinition V → List (Text × V) → Execution)
    (tools : List (ToolDefinition V)) where
  -- What is the case of a call that is run.
  pub record IsGranted (counts : Counts) (name : Text) (arguments : List (Text × V))
      (d : ToolDefinition V) : Type 0 where
    pub granted : by_name tools name ≡ some d
    pub complete : missing_required_arguments json d.required arguments ≡ []
    pub permitted : denied_argument json d.denied_arguments arguments ≡ none
    pub unused : is_used_up d.max_calls_per_conversation (count_of counts name) ≡ false

  -- What is the case of a call that is refused, with the answer that says so.
  pub data IsRefusal (counts : Counts) (name : Text) (arguments : List (Text × V)) (r : Response)
      : Type 0 where
    ungranted : by_name tools name ≡ none → r ≡ not_granted → IsRefusal counts name arguments r
    incomplete :
        (d : ToolDefinition V) (m : Text) (ms : List Text)
        → by_name tools name ≡ some d
        → missing_required_arguments json d.required arguments ≡ m ∷ ms
        → r ≡ missing_arguments (m ∷ ms)
        → IsRefusal counts name arguments r
    denied :
        (d : ToolDefinition V) (key : Text)
        → by_name tools name ≡ some d
        → denied_argument json d.denied_arguments arguments ≡ some key
        → r ≡ not_permitted key
        → IsRefusal counts name arguments r
    overused :
        (d : ToolDefinition V)
        → by_name tools name ≡ some d
        → is_used_up d.max_calls_per_conversation (count_of counts name) ≡ true
        → r ≡ called_too_often
        → IsRefusal counts name arguments r

  -- The two ways in which a call goes.
  pub data Invoked (counts : Counts) (name : Text) (arguments : List (Text × V))
      (r : Response × Counts) : Type 0 where
    ran :
        (d : ToolDefinition V)
        → IsGranted counts name arguments d
        → r ≡ (executed (run d arguments), set_count counts name (count_of counts name + 1))
        → Invoked counts name arguments r
    refused :
        IsRefusal counts name arguments r.0
        → is_executed r.0 ≡ false
        → r.1 ≡ counts
        → Invoked counts name arguments r

  invoke_checked-Invoked :
      (counts : Counts) (name : Text) (arguments : List (Text × V)) (d : ToolDefinition V)
      (missing : List Text) (forbidden : Option Text) (used_up : Bool)
      → by_name tools name ≡ some d
      → missing_required_arguments json d.required arguments ≡ missing
      → denied_argument json d.denied_arguments arguments ≡ forbidden
      → is_used_up d.max_calls_per_conversation (count_of counts name) ≡ used_up
      → Invoked counts name arguments
          (invoke_checked json run d counts name arguments missing forbidden used_up)
  unfolding invoke_checked
  invoke_checked-Invoked counts name arguments d (m ∷ ms) forbidden used_up g h k l =
      refused (incomplete d m ms g h refl) refl refl
  invoke_checked-Invoked counts name arguments d [] (some key) used_up g h k l =
      refused (denied d key g k refl) refl refl
  invoke_checked-Invoked counts name arguments d [] none true g h k l =
      refused (overused d g l refl) refl refl
  invoke_checked-Invoked counts name arguments d [] none false g h k l =
      ran d (record { granted = g; complete = h; permitted = k; unused = l }) refl

  invoke_found-Invoked :
      (counts : Counts) (name : Text) (arguments : List (Text × V)) (o : Option (ToolDefinition V))
      → by_name tools name ≡ o
      → Invoked counts name arguments (invoke_found json run o counts name arguments)
  unfolding invoke_found
  invoke_found-Invoked counts name arguments none g = refused (ungranted g refl) refl refl
  invoke_found-Invoked counts name arguments (some d) g =
      invoke_checked-Invoked counts name arguments d _ _ _ g refl refl refl

  -- A call is run, and counts as one call more, where the version grants a tool of its name, every
  -- required argument is given, no denied value is, and the tool's calls are not used up. It is refused,
  -- and counts nothing, with the answer for one of these conditions that fails.
  pub invoke-Invoked :
      (counts : Counts) (name : Text) (arguments : List (Text × V))
      → Invoked counts name arguments (invoke json run tools counts name arguments)
  unfolding invoke
  invoke-Invoked counts name arguments =
      invoke_found-Invoked counts name arguments (by_name tools name) refl

  IsGranted-limit :
      (counts : Counts) (name : Text) (arguments : List (Text × V)) (d e : ToolDefinition V)
      (limit : ℕ)
      → IsGranted counts name arguments e
      → by_name tools name ≡ some d
      → d.max_calls_per_conversation ≡ some limit
      → count_of counts name < limit
  IsGranted-limit counts name arguments d e limit granted g l =
      let same : e ≡ d = ground (arith, granted.granted, g) in
      let bound : e.max_calls_per_conversation ≡ some limit = cc in
      let unused = granted.unused in ground (arith, unused, bound)

  Invoked-count_of :
      (counts : Counts) (name other : Text) (arguments : List (Text × V)) (limit : ℕ)
      (d : ToolDefinition V) (r : Response × Counts)
      → Invoked counts name arguments r
      → by_name tools other ≡ some d
      → d.max_calls_per_conversation ≡ some limit
      → count_of counts other ≤ limit
      → ((if text_eq name other && is_executed r.0 then 1 else 0) + count_of counts other
          ≡ count_of r.1 other)
        × (count_of r.1 other ≤ limit)
  Invoked-count_of counts name other arguments limit d r (refused why e f) g l below =
      let k = ap (λ c. count_of c other) f in ground (arith, e, k)
  Invoked-count_of counts name other arguments limit d r (ran d' granted e) g l below =
      let k = ap (λ c. count_of c.1 other) e in
      let x : is_executed r.0 ≡ true = ap (λ c. is_executed c.0) e in
      elim (Bool-cases (text_eq name other)) [
        | inl same ↦
            let n = (text_eq_iff name other).0 same in
            let left =
              IsGranted-limit counts name arguments d d' limit granted (ap (by_name tools) n ∙ g)
                l in
            let counted =
              ap (count_of (set_count counts name (count_of counts name + 1))) (sym n)
              ∙ count_of-set_count counts name (count_of counts name + 1) in
            let old = ap (count_of counts) n in ground (arith, k, x, same, left, counted, old)
        | inr differs ↦
            let kept =
              count_of-set_count_other counts name other (count_of counts name + 1) differs in
            ground (arith, k, differs, kept)
      ]

  executions-limit :
      (counts : Counts) (calls : List (Text × List (Text × V))) (name : Text) (limit : ℕ)
      (d : ToolDefinition V)
      → by_name tools name ≡ some d
      → d.max_calls_per_conversation ≡ some limit
      → count_of counts name ≤ limit
      → executions name (converse json run tools counts calls) + count_of counts name ≤ limit
  unfolding converse
  executions-limit counts [] name limit d g l below = omega arith
  executions-limit counts ((n, arguments) ∷ calls) name limit d g l below =
      let r = invoke json run tools counts n arguments in
      let (k, still) =
        Invoked-count_of counts n name arguments limit d r (invoke-Invoked counts n arguments) g l
          below in
      let rest = executions-limit r.1 calls name limit d g l still in ground (arith, k, rest)

  -- However an agent calls its tools in a conversation, a tool that has a limit on its calls is run at
  -- most that often.
  pub converse_within_limit :
      (calls : List (Text × List (Text × V))) (name : Text) (limit : ℕ) (d : ToolDefinition V)
      → by_name tools name ≡ some d
      → d.max_calls_per_conversation ≡ some limit
      → executions name (converse json run tools [] calls) ≤ limit
  converse_within_limit calls name limit d g l =
      let h = executions-limit [] calls name limit d g l (ground arith) in ground (arith, h)
