-- ===== src/Resilience/Registry.antt =====
-- The breakers of several providers, and the probes that a recovering one lets through.
use live_kit_voice_agent.Prelude.{
  ℕ, ◌≡◌, refl, false, [], ◌∷◌, arith, Bool-cases, Option-cases, inl, inr, ◌∙◌,
}
use live_kit_voice_agent.Prelude.Text.{Text, text_eq, text_eq_iff}
use live_kit_voice_agent.Resilience.Breaker.{
  CircuitBreaker, Reply, handle_request, Registry, lookup, get_breaker, put, request,
  default_config,
}

put-other :
    (registry : Registry) (key other : Text) (b : CircuitBreaker)
    → text_eq key other ≡ false
    → lookup (put registry key b) other ≡ lookup registry other
put-other [] key other b h = refl
put-other ((k, old) ∷ rest) key other b h = elim (Bool-cases (text_eq k key)) [
  | inl same ↦
      let differs : text_eq k other ≡ false = rw ((text_eq_iff k key).0 same) h in
      ground (arith, same, differs)
  | inr differs ↦ let e = put-other rest key other b h in ground (arith, e, differs)
]

get_breaker-other :
    (registry : Registry) (key other : Text)
    → text_eq key other ≡ false
    → lookup (get_breaker registry key).1 other ≡ lookup registry other
unfolding get_breaker
get_breaker-other registry key other h = elim (Option-cases (lookup registry key)) [
  | inl e ↦ ground (arith, e, h)
  | inr (b, e) ↦ ground (arith, e)
]

-- A request leaves the breaker of every other key as it was, or absent.
pub request-lookup :
    (registry : Registry) (key other : Text) (sent answered : ℕ) (r : Reply)
    → text_eq key other ≡ false
    → lookup (request registry key sent answered r).1 other ≡ lookup registry other
unfolding request
request-lookup registry key other sent answered r h =
    let (b, held) = get_breaker registry key in
    put-other held key other (handle_request default_config sent answered r b).1 h
    ∙ get_breaker-other registry key other h
