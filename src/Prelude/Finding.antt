-- ===== src/Prelude/Finding.antt =====
-- What `find` finds.
use mathlib.Core.Path.{◌≡◌}
use mathlib.Core.Logic.{inl, inr}
use mathlib.Core.Bool.{Bool, true}
use mathlib.Core.Option.{some}
use mathlib.Core.List.{List, [], ◌∷◌, Memᴰ}
use native.Mathlib.Omega.{arith}
use live_kit_voice_agent.Prelude.Tests.{Bool-cases}
use live_kit_voice_agent.Prelude.Options.{find, is_some}

pub find-mem {ℓ} :
    {A : Type ℓ} (test : A → Bool) (xs : List A) {x : A} → find test xs ≡ some x → Memᴰ x xs
find-mem test [] h = cc
find-mem test (y ∷ ys) h = elim (Bool-cases (test y)) [
  | inl passes ↦ Memᴰ.head (ground arith)
  | inr fails ↦ Memᴰ.tail (find-mem test ys (ground arith))
]

pub find-passes {ℓ} :
    {A : Type ℓ} (test : A → Bool) (xs : List A) {x : A} → find test xs ≡ some x → test x ≡ true
find-passes test [] h = cc
find-passes test (y ∷ ys) {x} h = elim (Bool-cases (test y)) [
  | inl passes ↦ let e : y ≡ x = ground arith in cc
  | inr fails ↦ find-passes test ys (ground arith)
]

pub find-is_some {ℓ} :
    {A : Type ℓ} (test : A → Bool) (xs : List A) {x : A}
    → Memᴰ x xs
    → test x ≡ true
    → is_some (find test xs) ≡ true
find-is_some test [] m h = elim m [ ]
find-is_some test (y ∷ ys) (Memᴰ.head e) h = let g : test y ≡ true = cc in ground arith
find-is_some test (y ∷ ys) (Memᴰ.tail m) h = ground (arith, find-is_some test ys m h)
