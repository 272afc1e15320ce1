-- ===== src/Resilience/States.antt =====
-- The states of a circuit breaker over any sequence of checks and replies.
use live_kit_voice_agent.Prelude.{
  ℕ, ◌+◌, ◌≤◌, ◌<◌, ◌≡◌, refl, Bool, true, false, ◌&&◌, some, List, [], ◌∷◌, leb, ltb, arith,
  Bool-cases, inl, inr, is_some, ◌⊎◌, length,
}
use live_kit_voice_agent.Prelude.Sorting.{all}
use live_kit_voice_agent.Resilience.Breaker.{
  closed, opened, half_open, Config, CircuitBreaker, new_breaker, is_open, record_success,
  record_failure, Reply, responds, transport_error, other_error, blocked, record_reply, Event, gate,
  reply, step, run, handle_request,
}

-- What holds of every breaker: while it is closed, its failures are below the threshold, and while it
-- is not, the time of its opening is on record.
abbrev pub is_sound : Config → CircuitBreaker → Bool
is_sound cfg b = elim b.state [
  | closed ↦ ltb b.failure_count cfg.failure_threshold
  | opened ↦ is_some b.opened_at
  | half_open ↦ is_some b.opened_at
]

module _ (cfg : Config) (positive : 0 < cfg.failure_threshold) where
  record_failure-is_sound :
      (now : ℕ) (b : CircuitBreaker)
      → is_sound cfg b ≡ true
      → is_sound cfg (record_failure cfg now b) ≡ true
  unfolding record_failure
  record_failure-is_sound now b s = ground arith

  record_success-is_sound :
      (b : CircuitBreaker) → is_sound cfg b ≡ true → is_sound cfg (record_success cfg b) ≡ true
  unfolding record_success
  record_success-is_sound b s = ground arith

  step-is_sound :
      (b : CircuitBreaker) (e : Event) → is_sound cfg b ≡ true → is_sound cfg (step cfg b e) ≡ true
  unfolding step record_reply is_open
  step-is_sound b (gate now) s = ground arith
  step-is_sound b (reply now (responds status)) s =
      let failure = record_failure-is_sound now b s in
      let success = record_success-is_sound b s in ground (arith, failure, success)
  step-is_sound b (reply now transport_error) s = record_failure-is_sound now b s
  step-is_sound b (reply now other_error) s = s

  run-is_sound :
      (b : CircuitBreaker) (es : List Event)
      → is_sound cfg b ≡ true
      → is_sound cfg (run cfg b es) ≡ true
  unfolding run
  run-is_sound b [] s = s
  run-is_sound b (e ∷ es) s = run-is_sound (step cfg b e) es (step-is_sound b e s)

  -- With a positive threshold, and whatever checks and replies come in whatever order, a breaker that
  -- is closed has counted fewer failures than the threshold, and one that is not has the time of its
  -- opening on record.
  pub run-new_breaker : (es : List Event) → is_sound cfg (run cfg new_breaker es) ≡ true
  run-new_breaker es = run-is_sound new_breaker es (ground arith)

-- The time of an event.
abbrev pub time_of : Event → ℕ
time_of (gate now) = now
time_of (reply now r) = now

-- No event comes as late as the recovery timeout after the opening.
abbrev pub all_before : ℕ → List Event → Bool
all_before limit es = all (λ e. ltb (time_of e) limit) es

step-opened :
    (cfg : Config) (b : CircuitBreaker) (t : ℕ) (e : Event)
    → b.state ≡ opened
    → b.opened_at ≡ some t
    → time_of e < t + cfg.recovery_timeout
    → ((step cfg b e).state ≡ opened) × ((step cfg b e).opened_at ≡ some t)
unfolding step record_reply is_open record_success record_failure
step-opened cfg b t (gate now) s o h = ground arith
step-opened cfg b t (reply now (responds status)) s o h = ground arith
step-opened cfg b t (reply now transport_error) s o h = ground arith
step-opened cfg b t (reply now other_error) s o h = (s, o)

run-opened :
    (cfg : Config) (b : CircuitBreaker) (t : ℕ) (es : List Event)
    → b.state ≡ opened
    → b.opened_at ≡ some t
    → all_before (t + cfg.recovery_timeout) es ≡ true
    → ((run cfg b es).state ≡ opened) × ((run cfg b es).opened_at ≡ some t)
unfolding run
run-opened cfg b t [] s o h = (s, o)
run-opened cfg b t (e ∷ es) s o h =
    let (s', o') = step-opened cfg b t e s o (ground arith) in
    run-opened cfg (step cfg b e) t es s' o' (ground arith)

handle_request-blocked :
    (cfg : Config) (b : CircuitBreaker) (t sent answered : ℕ) (r : Reply)
    → b.state ≡ opened
    → b.opened_at ≡ some t
    → sent < t + cfg.recovery_timeout
    → (handle_request cfg sent answered r b).0 ≡ blocked
unfolding handle_request is_open
handle_request-blocked cfg b t sent answered r s o before = ground arith

-- A breaker that opened blocks each request that is sent before the recovery timeout has passed,
-- whatever replies of requests in flight, even successes, and whatever checks come in between.
pub run_opened_blocks :
    (cfg : Config) (b : CircuitBreaker) (t : ℕ) (es : List Event) (sent answered : ℕ) (r : Reply)
    → b.state ≡ opened
    → b.opened_at ≡ some t
    → all_before (t + cfg.recovery_timeout) es ≡ true
    → sent < t + cfg.recovery_timeout
    → (handle_request cfg sent answered r (run cfg b es)).0 ≡ blocked
run_opened_blocks cfg b t es sent answered r s o h before =
    let (s', o') = run-opened cfg b t es s o h in
    handle_request-blocked cfg (run cfg b es) t sent answered r s' o' before

-- The replies that count as failures.
abbrev pub is_failure : Reply → Bool
is_failure (responds status) = leb 500 status
is_failure transport_error = true
is_failure other_error = false

abbrev pub are_failures : List (ℕ × Reply) → Bool
are_failures [] = true
are_failures ((now, r) ∷ rs) = is_failure r && are_failures rs

abbrev pub replies : List (ℕ × Reply) → List Event
replies [] = []
replies ((now, r) ∷ rs) = reply now r ∷ replies rs

record_reply-failure :
    (cfg : Config) (b : CircuitBreaker) (now : ℕ) (r : Reply)
    → is_failure r ≡ true
    → record_reply cfg now r b ≡ record_failure cfg now b
unfolding record_reply
record_reply-failure cfg b now (responds status) h = rw h
record_reply-failure cfg b now transport_error h = refl
record_reply-failure cfg b now other_error h = cc

record_failure-opened :
    (cfg : Config) (b : CircuitBreaker) (now : ℕ)
    → b.state ≡ opened
    → (record_failure cfg now b).state ≡ opened
unfolding record_failure
record_failure-opened cfg b now h = ground arith

record_failure-closed :
    (cfg : Config) (b : CircuitBreaker) (now : ℕ)
    → b.state ≡ closed
    → ((record_failure cfg now b).state ≡ opened)
      ⊎ (((record_failure cfg now b).state ≡ closed)
          × ((record_failure cfg now b).failure_count ≡ b.failure_count + 1)
          × (b.failure_count + 1 < cfg.failure_threshold))
unfolding record_failure
record_failure-closed cfg b now h =
    elim (Bool-cases (leb cfg.failure_threshold (b.failure_count + 1))) [
      | inl e ↦ inl (ground (arith, e))
      | inr e ↦ inr (ground (arith, e))
    ]

run-stays_opened :
    (cfg : Config) (b : CircuitBreaker) (rs : List (ℕ × Reply))
    → are_failures rs ≡ true
    → b.state ≡ opened
    → (run cfg b (replies rs)).state ≡ opened
unfolding run step
run-stays_opened cfg b [] h s = s
run-stays_opened cfg b ((now, r) ∷ rs) h s =
    let e = record_reply-failure cfg b now r (ground arith) in
    let f = record_failure-opened cfg b now s in
    run-stays_opened cfg (record_reply cfg now r b) rs (ground arith) (rw e f)

-- A closed breaker that has counted fewer failures than its threshold is open after failures in a row
-- that, with the ones counted, reach it.
pub run_failures :
    (cfg : Config) (b : CircuitBreaker) (rs : List (ℕ × Reply))
    → b.state ≡ closed
    → are_failures rs ≡ true
    → cfg.failure_threshold ≤ b.failure_count + length rs
    → b.failure_count < cfg.failure_threshold
    → (run cfg b (replies rs)).state ≡ opened
unfolding run step
run_failures cfg b [] s h enough below = absurd (omega arith)
run_failures cfg b ((now, r) ∷ rs) s h enough below =
    let e = record_reply-failure cfg b now r (ground arith) in
    elim (record_failure-closed cfg b now s) [
      | inl o ↦ run-stays_opened cfg (record_reply cfg now r b) rs (ground arith) (rw e o)
      | inr (c, count, still) ↦
          run_failures cfg (record_reply cfg now r b) rs (rw e c) (ground arith)
            (rw (e, count) (omega arith)) (rw (e, count) still)
    ]
