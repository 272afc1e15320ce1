-- ===== src/Resilience/Breaker.antt =====
-- `CircuitBreaker`, `get_breaker` and `_CircuitBreakerTransport` of
-- services/ai-agent-worker/worker/resilience/__init__.py. Times are milliseconds of the monotonic clock,
-- which an operation is given. Each method holds the breaker's lock, so that the requests of a worker
-- are a sequence of method calls.
use live_kit_voice_agent.Prelude.{
  ℕ, ◌+◌, ◌-◌, Bool, true, false, not, ◌&&◌, ◌||◌, Option, none, some, List, [], ◌∷◌, if◌then◌else◌,
  leb,
}
use live_kit_voice_agent.Prelude.Text.{Text, text_eq}

-- `_CBState`
pub data BreakerState : Type 0 where
  closed opened half_open : BreakerState

-- The arguments of the constructor.
pub record Config : Type 0 where
  pub failure_threshold : ℕ
  pub recovery_timeout : ℕ
  pub success_threshold : ℕ

abbrev pub default_config : Config
default_config = record { failure_threshold = 5; recovery_timeout = 60000; success_threshold = 1 }

pub record CircuitBreaker : Type 0 where
  pub state : BreakerState
  pub failure_count : ℕ
  pub success_count : ℕ
  pub opened_at : Option ℕ

-- `__init__`
abbrev pub new_breaker : CircuitBreaker
new_breaker = record { state = closed; failure_count = 0; success_count = 0; opened_at = none }

abbrev pub is_state_open : BreakerState → Bool
is_state_open opened = true
is_state_open closed = false
is_state_open half_open = false

abbrev pub is_state_half_open : BreakerState → Bool
is_state_half_open half_open = true
is_state_half_open opened = false
is_state_half_open closed = false

-- `self._opened_at or 0.0`
abbrev pub opened_or_zero : Option ℕ → ℕ
opened_or_zero none = 0
opened_or_zero (some t) = t

module _ (cfg : Config) where
  -- `is_open`: the answer, and the breaker after the side effect. `elapsed >= recovery_timeout` is
  -- written with no subtraction.
  unfoldable pub is_open : ℕ → CircuitBreaker → Bool × CircuitBreaker
  is_open now b =
      if is_state_open b.state
      then (if leb (opened_or_zero b.opened_at + cfg.recovery_timeout) now
          then (false, record b { state = half_open; success_count = 0 })
          else (true, b))
      else (false, b)

  -- `record_success`
  unfoldable pub record_success : CircuitBreaker → CircuitBreaker
  record_success b = elim b.state [
    | half_open ↦
        if leb cfg.success_threshold (b.success_count + 1)
        then record b { success_count = b.success_count + 1; state = closed; failure_count = 0 }
        else record b { success_count = b.success_count + 1 }
    | closed ↦ record b { failure_count = b.failure_count - 1 }
    | opened ↦ b
  ]

  -- `record_failure`
  unfoldable pub record_failure : ℕ → CircuitBreaker → CircuitBreaker
  record_failure now b =
      if (is_state_half_open b.state || leb cfg.failure_threshold (b.failure_count + 1))
        && not (is_state_open b.state)
      then record b { state = opened; opened_at = some now; failure_count = 0 }
      else record b { failure_count = b.failure_count + 1 }

-- What the wrapped transport does: it answers with a status code, raises one of the three errors that
-- count, or raises another.
pub data Reply : Type 0 where
  responds : ℕ → Reply
  transport_error other_error : Reply

-- What the caller gets; `blocked` is the error that is raised with no request sent.
pub data Response : Type 0 where
  blocked : Response
  replied : Reply → Response

-- `handle_async_request`, with the times of the check and of the reply.
unfoldable pub record_reply : Config → ℕ → Reply → CircuitBreaker → CircuitBreaker
unfolding record_success record_failure
record_reply cfg now (responds status) b =
    if leb 500 status then record_failure cfg now b else record_success cfg b
record_reply cfg now transport_error b = record_failure cfg now b
record_reply cfg now other_error b = b

-- A request in flight does not hold the lock: its gate and its reply are two events.
pub data Event : Type 0 where
  gate : ℕ → Event
  reply : ℕ → Reply → Event

unfoldable pub step : Config → CircuitBreaker → Event → CircuitBreaker
unfolding is_open record_reply
step cfg b (gate now) = (is_open cfg now b).1
step cfg b (reply now r) = record_reply cfg now r b

unfoldable pub run : Config → CircuitBreaker → List Event → CircuitBreaker
unfolding step
run cfg b [] = b
run cfg b (e ∷ es) = run cfg (step cfg b e) es

-- `handle_async_request` where no other request comes between.
unfoldable pub handle_request : Config → ℕ → ℕ → Reply → CircuitBreaker → Response × CircuitBreaker
unfolding is_open record_reply
handle_request cfg sent answered r b =
    let (skip, checked) = is_open cfg sent b in
    if skip then (blocked, checked) else (replied r, record_reply cfg answered r checked)

-- `_registry`
abbrev pub Registry : Type 0
Registry = List (Text × CircuitBreaker)

abbrev pub lookup : Registry → Text → Option CircuitBreaker
lookup [] key = none
lookup ((k, b) ∷ rest) key = if text_eq k key then some b else lookup rest key

-- `get_breaker`
unfoldable pub get_breaker : Registry → Text → CircuitBreaker × Registry
get_breaker registry key = elim (lookup registry key) [
  | some b ↦ (b, registry)
  | none ↦ (new_breaker, (key, new_breaker) ∷ registry)
]

-- The object that the registry holds under a key is changed in place.
abbrev pub put : Registry → Text → CircuitBreaker → Registry
put [] key b = []
put ((k, old) ∷ rest) key b = if text_eq k key then (k, b) ∷ rest else (k, old) ∷ put rest key b

-- A request through the client of `make_resilient_client` with that key.
unfoldable pub request : Registry → Text → ℕ → ℕ → Reply → Response × Registry
unfolding get_breaker handle_request
request registry key sent answered r =
    let (b, held) = get_breaker registry key in
    let (response, after) = handle_request default_config sent answered r b in
    (response, put held key after)
