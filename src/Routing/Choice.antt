-- ===== src/Routing/Choice.antt =====
-- Which rule `resolve_route` settles on.
use live_kit_voice_agent.Prelude.{
  ℕ, ◌≡◌, ◌≢◌, refl, sym, Bool, true, false, not, ◌||◌, Option, none, some, List, [], ◌∷◌, Memᴰ,
  is_some, arith, Bool-cases, Option-cases, inl, inr, ◌⊎◌, if◌then◌else◌,
}
use live_kit_voice_agent.Prelude.Sorting.{is_sorted, all, all-weaken}
use live_kit_voice_agent.Prelude.Text.{Text}
use live_kit_voice_agent.Models.{FallbackAction, secondary_agent, pbx_queue, voicemail, hangup}
use live_kit_voice_agent.Routing.Hours.{HoursMap, LocalTime}
use live_kit_voice_agent.Routing.Resolve.{
  Rule, Inquiry, Route, unrouted, closed, conditions_of, matches, is_ahead, closed_agent,
  when_closed, when_open, is_closed_now, judge, first_route, filter_rules, limit_one,
}

is_ahead_refl : (r : Rule) → is_ahead r r ≡ true
unfolding is_ahead
is_ahead_refl r = ground arith

pub is_ahead_total : (r s : Rule) → is_ahead r s ≡ false → is_ahead s r ≡ true
unfolding is_ahead
is_ahead_total r s h = ground arith

pub is_ahead_trans :
    (r s t : Rule) → is_ahead r s ≡ true → is_ahead s t ≡ true → is_ahead r t ≡ true
unfolding is_ahead
is_ahead_trans r s t h k = ground arith

pub filter_rules-mem :
    (test : Rule → Bool) (rs : List Rule) {r : Rule}
    → Memᴰ r (filter_rules test rs)
    → Memᴰ r rs × (test r ≡ true)
filter_rules-mem test [] m = elim m [ ]
filter_rules-mem test (s ∷ rs) m = by_test (test s) refl m (filter_rules-mem test rs)
  where
    by_test :
        {r : Rule} (b : Bool)
        → test s ≡ b
        → Memᴰ r (if b then s ∷ filter_rules test rs else filter_rules test rs)
        → (Memᴰ r (filter_rules test rs) → Memᴰ r rs × (test r ≡ true))
        → Memᴰ r (s ∷ rs) × (test r ≡ true)
    by_test true e (Memᴰ.head same) h = (Memᴰ.head same, cc)
    by_test true e (Memᴰ.tail m) h = (Memᴰ.tail (h m).0, (h m).1)
    by_test false e m h = (Memᴰ.tail (h m).0, (h m).1)

pub limit_one-mem : (rs : List Rule) {r : Rule} → Memᴰ r (limit_one rs) → Memᴰ r rs
limit_one-mem [] m = m
limit_one-mem (s ∷ rs) (Memᴰ.head e) = Memᴰ.head e
limit_one-mem (s ∷ rs) (Memᴰ.tail m) = elim m [ ]

module _ (local : Text → Option LocalTime) (hours : HoursMap) (q : Inquiry) where
  -- The rule is not among those that the loop would rather settle on.
  unfoldable pub yields_to : Rule → Rule → Bool
  yields_to r s = not (is_some (judge local hours q s)) || is_ahead r s

  pub record Settles (rules : List Rule) (route : Route) (r : Rule) : Type 0 where
    pub candidate : Memᴰ r rules
    pub settled : judge local hours q r ≡ some route
    pub first : all (yields_to r) rules ≡ true

  pub first_route-Settles :
      (rs : List Rule) (route : Route)
      → is_sorted is_ahead rs ≡ true
      → first_route local hours q rs ≡ route
      → route ≢ unrouted
      → (r : Rule) × Settles rs route r
  unfolding first_route yields_to
  first_route-Settles [] route ordered h n = absurd (n (sym h))
  first_route-Settles (r ∷ rs) route ordered h n = elim (Option-cases (judge local hours q r)) [
    | inl skipped ↦
        let (s, k) = first_route-Settles rs route (ground arith) (ground arith) n in
        let rest = k.first in
        (
          s,
          record {
            candidate = Memᴰ.tail k.candidate;
            settled = k.settled;
            first = ground (arith, skipped, rest);
          },
        )
    | inr (found, e) ↦
        let above : all (is_ahead r) rs ≡ true = ground arith in
        let rest =
          all-weaken {p = is_ahead r} {q = yields_to r} rs (λ s a. ground (arith, a)) above in
        let self = is_ahead_refl r in
        (
          r,
          record {
            candidate = Memᴰ.head refl;
            settled = ground arith;
            first = ground (arith, rest, self);
          },
        )
  ]

module _ (local : Text → Option LocalTime) (hours : HoursMap) (q : Inquiry) (r : Rule) where
  abbrev pub is_shut : Bool
  is_shut = is_closed_now local hours q.tenant_timezone r.business_hours_id

  -- The ways in which a rule settles the route: its secondary agent while it is closed, a refusal
  -- while it is closed, and its own agent while it is not.
  pub data Verdict (route : Route) : Type 0 where
    secondary :
        (agent : ℕ)
        → matches (conditions_of r) q ≡ true
        → is_shut ≡ true
        → r.closed_action ≡ some secondary_agent
        → r.fallback_agent_id ≡ some agent
        → route ≡ when_closed r (some agent)
        → Verdict route
    refused :
        matches (conditions_of r) q ≡ true → is_shut ≡ true → route ≡ closed r.name → Verdict route
    own :
        (agent : ℕ)
        → matches (conditions_of r) q ≡ true
        → is_shut ≡ false
        → r.agent_id ≡ some agent
        → when_open r (some agent) ≡ some route
        → Verdict route

  closed_agent-cases :
      (o : Option FallbackAction) (agent : Option ℕ)
      → (closed_agent o agent ≡ none)
        ⊎ ((a : ℕ) × (o ≡ some secondary_agent)
            × (agent ≡ some a)
            × (closed_agent o agent ≡ some a))
  closed_agent-cases none agent = inl refl
  closed_agent-cases (some secondary_agent) none = inl refl
  closed_agent-cases (some secondary_agent) (some a) = inr (a, refl, refl, refl)
  closed_agent-cases (some pbx_queue) agent = inl refl
  closed_agent-cases (some voicemail) agent = inl refl
  closed_agent-cases (some hangup) agent = inl refl

  pub judge-Verdict : (route : Route) → judge local hours q r ≡ some route → Verdict route
  unfolding judge
  judge-Verdict route h = elim (Bool-cases (matches (conditions_of r) q)) [
    | inr unfit ↦ absurd (ground (arith, unfit))
    | inl fits ↦ elim (Bool-cases is_shut) [
      | inl shut ↦ elim (closed_agent-cases r.closed_action r.fallback_agent_id) [
        | inl none_left ↦
            let e : route ≡ closed r.name = ground (arith, fits, shut, none_left) in
            refused fits shut e
        | inr (a, action, agent, chosen) ↦
            let e : route ≡ when_closed r (some a) = ground (arith, fits, shut, chosen) in
            secondary a fits shut action agent e
      ]
      | inr opened ↦ elim (Option-cases r.agent_id) [
        | inl missing ↦ absurd (ground (arith, fits, opened, missing))
        | inr (a, agent) ↦ own a fits opened agent (ground (arith, fits, opened, agent))
      ]
    ]
  ]
