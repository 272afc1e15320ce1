-- ===== src/Transfer/Destinations/Choice.antt =====
-- What `resolve_destination` chooses.
use live_kit_voice_agent.Prelude.{
  ℕ, ◌≡◌, refl, true, Option, none, some, List, [], ◌∷◌, Memᴰ, find, head?, coalesce, arith,
  Option-cases, inl, inr, is_some, ==_iff,
}
use live_kit_voice_agent.Prelude.Text.{Text, lower, strip}
use live_kit_voice_agent.Prelude.Finding.{find-mem, find-passes, find-is_some}
use live_kit_voice_agent.Transfer.Destinations.{
  TransferDestinationInfo, has_id, has_name, mentions, by_id, by_name, resolve_destination,
}

head?-mem {ℓ} : {A : Type ℓ} (xs : List A) {x : A} → head? xs ≡ some x → Memᴰ x xs
head?-mem [] h = cc
head?-mem (y ∷ ys) h = Memᴰ.head (ground arith)

coalesce-mem {ℓ} :
    {A : Type ℓ} {xs : List A} (o p : Option A)
    → ((x : A) → o ≡ some x → Memᴰ x xs)
    → ((x : A) → p ≡ some x → Memᴰ x xs)
    → (x : A) → coalesce o p ≡ some x
    → Memᴰ x xs
coalesce-mem (some a) p ho hp x h = ho x h
coalesce-mem none p ho hp x h = hp x h

by_id-mem :
    (ds : List TransferDestinationInfo) (i : Option ℕ) (d : TransferDestinationInfo)
    → by_id ds i ≡ some d
    → Memᴰ d ds
unfolding by_id
by_id-mem ds none d h = cc
by_id-mem ds (some i) d h = find-mem (has_id i) ds h

by_name-mem :
    (ds : List TransferDestinationInfo) (name : Option Text) (d : TransferDestinationInfo)
    → by_name ds name ≡ some d
    → Memᴰ d ds
unfolding by_name
by_name-mem ds none d h = cc
by_name-mem ds (some []) d h = cc
by_name-mem ds (some (c ∷ cs)) d h =
    let wanted = lower (strip (c ∷ cs)) in
    coalesce-mem (find (has_name wanted) ds) (find (mentions wanted) ds)
      (λ x. find-mem (has_name wanted) ds) (λ x. find-mem (mentions wanted) ds) d h

-- What is chosen is one of the destinations.
pub resolve_destination-mem :
    (ds : List TransferDestinationInfo) (name : Option Text) (i : Option ℕ)
    (d : TransferDestinationInfo)
    → resolve_destination ds name i ≡ some d
    → Memᴰ d ds
unfolding resolve_destination
resolve_destination-mem ds name i d h =
    coalesce-mem (by_id ds i) (coalesce (by_name ds name) (head? ds)) (by_id-mem ds i)
      (λ x. coalesce-mem (by_name ds name) (head? ds) (by_name-mem ds name) (λ y. head?-mem ds) x) d
      h

coalesce-is_some {ℓ} :
    {A : Type ℓ} (o : Option A) (p : Option A) → is_some p ≡ true → is_some (coalesce o p) ≡ true
coalesce-is_some none p h = h
coalesce-is_some (some a) p h = refl

-- A destination is chosen exactly if there is one at all, whatever name or identifier is asked for.
pub resolve_destination_total :
    (ds : List TransferDestinationInfo) (name : Option Text) (i : Option ℕ)
    → is_some (resolve_destination ds name i) ≡ is_some (head? ds)
unfolding resolve_destination by_id by_name
resolve_destination_total [] none none = refl
resolve_destination_total [] none (some i) = refl
resolve_destination_total [] (some []) none = refl
resolve_destination_total [] (some []) (some i) = refl
resolve_destination_total [] (some (c ∷ cs)) none = refl
resolve_destination_total [] (some (c ∷ cs)) (some i) = refl
resolve_destination_total (d ∷ ds) name i =
    coalesce-is_some (by_id (d ∷ ds) i) (coalesce (by_name (d ∷ ds) name) (some d))
      (coalesce-is_some (by_name (d ∷ ds) name) (some d) refl)

-- Where one of the destinations has the identifier asked for, one with that identifier is chosen,
-- whatever the name.
pub resolve_destination_found :
    (ds : List TransferDestinationInfo) (name : Option Text) (i : ℕ) (d : TransferDestinationInfo)
    → Memᴰ d ds
    → d.id ≡ i
    → (r : TransferDestinationInfo) × (resolve_destination ds name (some i) ≡ some r) × (r.id ≡ i)
unfolding resolve_destination by_id
resolve_destination_found ds name i d m same = elim (Option-cases (find (has_id i) ds)) [
  | inl missing ↦
      let f = find-is_some (has_id i) ds m ((==_iff d.id i).1 same) in absurd (ground (arith, f))
  | inr (r, found) ↦ (r, rw found, (==_iff r.id i).0 (find-passes (has_id i) ds found))
]
