-- ===== src/Prelude/Sorting.antt =====
-- Python's stable `sorted`, as an insertion sort by a Boolean order, and what a `for` over the result
-- may rely on.
use mathlib.Core.Path.{◌≡◌, refl}
use mathlib.Core.Logic.{◌⊎◌, inl, inr}
use mathlib.Core.Bool.{Bool, true, false, ◌&&◌}
use mathlib.Core.List.{List, [], ◌∷◌, Memᴰ}
use native.Mathlib.Omega.{arith}
use live_kit_voice_agent.Prelude.Tests.{if◌then◌else◌, Bool-cases}

module _ {ℓ} {A : Type ℓ} where
  abbrev pub all : (A → Bool) → List A → Bool
  all test [] = true
  all test (x ∷ xs) = test x && all test xs

  pub all-weaken :
      {p q : A → Bool} (xs : List A)
      → ((x : A) → p x ≡ true → q x ≡ true)
      → all p xs ≡ true
      → all q xs ≡ true
  all-weaken [] h k = refl
  all-weaken (x ∷ xs) h k =
      let here = h x (ground arith) in
      let rest = all-weaken xs h (ground arith) in ground (arith, here, rest)

  pub all-mem : (p : A → Bool) (xs : List A) {x : A} → all p xs ≡ true → Memᴰ x xs → p x ≡ true
  all-mem p [] h m = elim m [ ]
  all-mem p (y ∷ ys) h (Memᴰ.head e) = let g : p y ≡ true = ground arith in cc
  all-mem p (y ∷ ys) h (Memᴰ.tail m) = all-mem p ys (ground arith) m

module _ {ℓ} {A : Type ℓ} (le : A → A → Bool) where
  -- Before the first item that it may stand before.
  unfoldable pub insert : A → List A → List A
  insert x [] = x ∷ []
  insert x (y ∷ ys) = if le x y then x ∷ y ∷ ys else y ∷ insert x ys

  unfoldable pub sorted : List A → List A
  unfolding insert
  sorted [] = []
  sorted (x ∷ xs) = insert x (sorted xs)

  abbrev pub is_sorted : List A → Bool
  is_sorted [] = true
  is_sorted (x ∷ xs) = all (le x) xs && is_sorted xs

  if-mem :
      (b : Bool) (x y : A) (ys rest : List A) {z : A}
      → (Memᴰ z rest → (z ≡ x) ⊎ Memᴰ z ys)
      → Memᴰ z (if b then x ∷ y ∷ ys else y ∷ rest)
      → (z ≡ x) ⊎ Memᴰ z (y ∷ ys)
  if-mem true x y ys rest h (Memᴰ.head e) = inl e
  if-mem true x y ys rest h (Memᴰ.tail m) = inr m
  if-mem false x y ys rest h (Memᴰ.head e) = inr (Memᴰ.head e)
  if-mem false x y ys rest h (Memᴰ.tail m) = elim (h m) [
    | inl e ↦ inl e
    | inr k ↦ inr (Memᴰ.tail k)
  ]

  insert-mem : (x : A) (ys : List A) {z : A} → Memᴰ z (insert x ys) → (z ≡ x) ⊎ Memᴰ z ys
  unfolding insert
  insert-mem x [] (Memᴰ.head e) = inl e
  insert-mem x [] (Memᴰ.tail m) = elim m [ ]
  insert-mem x (y ∷ ys) m = if-mem (le x y) x y ys (insert x ys) (insert-mem x ys) m

  pub sorted-mem : (xs : List A) {z : A} → Memᴰ z (sorted xs) → Memᴰ z xs
  unfolding sorted
  sorted-mem [] m = m
  sorted-mem (x ∷ xs) m = elim (insert-mem x (sorted xs) m) [
    | inl e ↦ Memᴰ.head e
    | inr k ↦ Memᴰ.tail (sorted-mem xs k)
  ]

  insert-all : (p : A → Bool) (x : A) (ys : List A) → all p (insert x ys) ≡ (p x && all p ys)
  unfolding insert
  insert-all p x [] = refl
  insert-all p x (y ∷ ys) = let rest = insert-all p x ys in ground (arith, rest)

  -- A test holds of every item of the sorted list exactly where it holds of every item.
  pub sorted-all : (p : A → Bool) (xs : List A) → all p (sorted xs) ≡ all p xs
  unfolding sorted
  sorted-all p [] = refl
  sorted-all p (x ∷ xs) =
      let rest = sorted-all p xs in
      let step = insert-all p x (sorted xs) in ground (arith, rest, step)

  module _ (total : (x y : A) → le x y ≡ false → le y x ≡ true)
      (trans : (x y z : A) → le x y ≡ true → le y z ≡ true → le x z ≡ true) where
    insert-is_sorted : (x : A) (ys : List A) → is_sorted ys ≡ true → is_sorted (insert x ys) ≡ true
    unfolding insert
    insert-is_sorted x [] h = refl
    insert-is_sorted x (y ∷ ys) h =
        let tail_sorted : is_sorted ys ≡ true = ground arith in
        let above : all (le y) ys ≡ true = ground arith in
        elim (Bool-cases (le x y)) [
          | inl before ↦
              let rest = all-weaken {p = le y} {q = le x} ys (λ z. trans x y z before) above in
              ground (arith, rest)
          | inr after ↦
              let rest = insert-is_sorted x ys tail_sorted in
              let step = insert-all (le y) x ys in
              let back = total x y after in ground (arith, rest, step, back)
        ]

    pub sorted-is_sorted : (xs : List A) → is_sorted (sorted xs) ≡ true
    unfolding sorted
    sorted-is_sorted [] = refl
    sorted-is_sorted (x ∷ xs) = insert-is_sorted x (sorted xs) (sorted-is_sorted xs)
