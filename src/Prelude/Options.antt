-- ===== src/Prelude/Options.antt =====
-- Options: what the source does with a value that may be `None` or NULL.
use mathlib.Core.Path.{◌≡◌, refl}
use mathlib.Core.Logic.{◌⊎◌, inl, inr}
use mathlib.Core.Bool.{Bool, true, false}
use mathlib.Core.Option.{Option, none, some}
use mathlib.Core.List.{List, [], ◌∷◌}
use live_kit_voice_agent.Prelude.Tests.{if◌then◌else◌}

module _ {ℓ} {A : Type ℓ} where
  -- `x is not None`
  abbrev pub is_some : Option A → Bool
  is_some none = false
  is_some (some _) = true

  -- `COALESCE(new, old)`, and `new or old` where every value is true.
  abbrev pub coalesce : Option A → Option A → Option A
  coalesce (some a) old = some a
  coalesce none old = old

  abbrev pub keep_if : Bool → Option A → Option A
  keep_if true o = o
  keep_if false o = none

  -- The first item that passes the test: the `for … if … return` loops of the source.
  abbrev pub find : (A → Bool) → List A → Option A
  find test [] = none
  find test (x ∷ xs) = if test x then some x else find test xs

  abbrev pub head? : List A → Option A
  head? [] = none
  head? (x ∷ _) = some x

  pub Option-cases : (o : Option A) → (o ≡ none) ⊎ ((a : A) × (o ≡ some a))
  Option-cases none = inl refl
  Option-cases (some a) = inr (a, refl)
