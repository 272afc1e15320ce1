-- ===== src/Tools/Filling.antt =====
-- That a template of a tool whose schema is accepted can be filled.
use live_kit_voice_agent.Prelude.{
  ◌≡◌, refl, ap, sym, ◌∙◌, Bool, true, false, ◌&&◌, Option, List, [], ◌∷◌, ◌++◌, any, is_some, Memᴰ,
  arith, Bool-cases, Option-cases, inl, inr,
}
use live_kit_voice_agent.Prelude.Sorting.{all, sorted-all}
use live_kit_voice_agent.Prelude.Text.{Text, text_eq, text_eq_iff, text_le}
use live_kit_voice_agent.Tools.Runtime.{member}
use live_kit_voice_agent.Tools.Placeholders.{
  Segment, literal, variable, scan, names, found_in, distinct, extract_variables, filled, before,
  value_of, replace_with, fill, substitute, context_variables, Member, missing, malformed, listed,
  Schema, empty, not_an_object, object, object_or_none, other_type, Verdict, valid, is_listed,
  without, valid_or, undeclared_variables, undeclared_required, check_referenced, check_required,
  validate_request_schema, declared_by,
}

all-append : (p : Text → Bool) (xs ys : List Text) → all p (xs ++ ys) ≡ (all p xs && all p ys)
all-append p [] ys = refl
all-append p (x ∷ xs) ys = let rest = all-append p xs ys in ground (arith, rest)

listed-all :
    (p : Text → Bool) (n : Text) (ns : List Text)
    → is_listed ns n ≡ true
    → all p ns ≡ true
    → p n ≡ true
listed-all p n [] h k = absurd (ground arith)
listed-all p n (x ∷ xs) h k = elim (Bool-cases (text_eq n x)) [
  | inl e ↦ ap p ((text_eq_iff n x).0 e) ∙ ground arith
  | inr e ↦ listed-all p n xs (ground (arith, e)) (ground arith)
]

distinct-all : (p : Text → Bool) (xs : List Text) → all p (distinct xs) ≡ true → all p xs ≡ true
distinct-all p [] h = refl
distinct-all p (x ∷ xs) h = elim (Bool-cases (any (text_eq x) xs)) [
  | inr e ↦ let rest = distinct-all p xs (ground (arith, e)) in ground (arith, e, rest)
  | inl e ↦
      let rest = distinct-all p xs (ground (arith, e)) in
      let here = listed-all p x xs e rest in ground (arith, rest, here)
]

found-all :
    (p : Text → Bool) (ts : List Text) {t : Text}
    → all p (found_in ts) ≡ true
    → Memᴰ t ts
    → all p (names (scan 0 t)) ≡ true
found-all p [] h m = elim m [ ]
found-all p (x ∷ xs) {t} h (Memᴰ.head e) =
    let split = all-append p (names (scan 0 x)) (found_in xs) in
    ap (λ y. all p (names (scan 0 y))) e ∙ ground (arith, split)
found-all p (x ∷ xs) h (Memᴰ.tail m) =
    let split = all-append p (names (scan 0 x)) (found_in xs) in
    found-all p xs (ground (arith, split)) m

-- What is left of a list without others.
without-all :
    (p : Text → Bool) (ns xs : List Text)
    → all p ns ≡ true
    → all p (without ns xs) ≡ true
    → all p xs ≡ true
without-all p ns [] h k = refl
without-all p ns (x ∷ xs) h k = elim (Bool-cases (is_listed ns x)) [
  | inr e ↦ let rest = without-all p ns xs h (ground (arith, e)) in ground (arith, e, rest)
  | inl e ↦
      let rest = without-all p ns xs h (ground (arith, e)) in
      let here = listed-all p x ns e h in ground (arith, rest, here)
]

abbrev pub is_valid : Verdict → Bool
is_valid valid = true
is_valid _ = false

valid_or-all :
    (p : Text → Bool) (xs : List Text)
    → is_valid (valid_or undeclared_variables xs valid) ≡ true
    → all p xs ≡ true
valid_or-all p [] h = refl
valid_or-all p (x ∷ xs) h = absurd (ground arith)

check_referenced-all :
    (p : Text → Bool) (declared referenced : List Text)
    → all p declared ≡ true
    → all p context_variables ≡ true
    → is_valid (check_referenced declared referenced) ≡ true
    → all p referenced ≡ true
check_referenced-all p declared referenced d c h = without-all p declared referenced d (
    without-all p context_variables (without declared referenced) c
      (valid_or-all p (without context_variables (without declared referenced)) h))

valid_or_rest :
    (xs : List Text) (rest : Verdict)
    → is_valid (valid_or undeclared_required xs rest) ≡ true
    → is_valid rest ≡ true
valid_or_rest [] rest h = h
valid_or_rest (x ∷ xs) rest h = absurd (ground arith)

check_required-referenced :
    (required : Member) (declared referenced : List Text)
    → is_valid (check_required required declared referenced) ≡ true
    → is_valid (check_referenced declared referenced) ≡ true
check_required-referenced missing declared referenced h = h
check_required-referenced malformed declared referenced h = absurd (ground arith)
check_required-referenced (listed ns) declared referenced h =
    valid_or_rest (without declared ns) (check_referenced declared referenced) h

validate_request_schema-all :
    (p : Text → Bool) (s : Schema) (referenced : List Text)
    → is_valid (validate_request_schema s referenced) ≡ true
    → all p (declared_by s) ≡ true
    → all p context_variables ≡ true
    → all p referenced ≡ true
unfolding validate_request_schema
validate_request_schema-all p empty referenced h d c = check_referenced-all p [] referenced refl c h
validate_request_schema-all p not_an_object referenced h d c = absurd (ground arith)
validate_request_schema-all p (object other_type ps rs) referenced h d c = absurd (ground arith)
validate_request_schema-all p (object object_or_none malformed rs) referenced h d c =
    absurd (ground arith)
validate_request_schema-all p (object object_or_none missing rs) referenced h d c =
    check_referenced-all p [] referenced refl c (check_required-referenced rs [] referenced h)
validate_request_schema-all p (object object_or_none (listed ns) rs) referenced h d c =
    check_referenced-all p ns referenced d c (check_required-referenced rs ns referenced h)

module _ {V : Type 0} (str : V → Text) (values : List (Text × Option V)) where
  -- The placeholder has a value that is not None.
  abbrev pub has_value : Text → Bool
  has_value n = is_some (value_of str (member values n))

  fill-all :
      (ss : List Segment)
      → all has_value (names ss) ≡ true
      → (out : Text) × (fill str values ss ≡ filled out)
  unfolding fill
  fill-all [] h = ([], refl)
  fill-all (literal c ∷ ss) h = let (out, e) = fill-all ss h in (c ∷ out, ap (before (c ∷ [])) e)
  fill-all (variable n ∷ ss) h = elim (Option-cases (value_of str (member values n))) [
    | inl e ↦ absurd (ground (arith, e))
    | inr (v, e) ↦
        let (out, f) = fill-all ss (ground arith) in
        (
          str v ++ out,
          ap (λ o. replace_with str n o (fill str values ss)) e ∙ ap (before (str v)) f,
        )
  ]

  -- Where a request schema is accepted with the placeholders of some templates, each of these can be
  -- filled from values that give every property that the schema declares and every variable of the
  -- call.
  pub substitute-validate_request_schema :
      (s : Schema) (templates : List Text) (template : Text)
      → validate_request_schema s (extract_variables templates) ≡ valid
      → Memᴰ template templates
      → all has_value (declared_by s) ≡ true
      → all has_value context_variables ≡ true
      → (out : Text) × (substitute str values template ≡ filled out)
  unfolding substitute extract_variables
  substitute-validate_request_schema s templates template h m d c =
      let referenced =
        validate_request_schema-all has_value s (extract_variables templates) (ap is_valid h) d c in
      let sets =
        distinct-all has_value (found_in templates)
          (sym (sorted-all text_le has_value (distinct (found_in templates))) ∙ referenced) in
      fill-all (scan 0 template) (found-all has_value templates sets m)
