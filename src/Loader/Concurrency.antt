-- ===== src/Loader/Concurrency.antt =====
-- Calls of one tenant that are loaded at the same time: the count of `_enforce_limits` and the row of
-- the call, which `_create_call_row` inserts, are apart by every await of `load` between them.
use live_kit_voice_agent.Prelude.{ℕ, suc, ◌+◌, ◌≤◌, ◌<◌, ◌≡◌, false, some, List, ◌∷◌, arith}
use live_kit_voice_agent.Loader.Limits.{Call, Tenant, active_calls, is_full}

-- The rows, and how many calls have passed the count and are not recorded yet.
pub record Loading : Type 0 where
  pub calls : List Call
  pub in_flight : ℕ

-- What may happen next, where at most `width` calls are loaded at a time.
pub data Step (t : Tenant) (width : ℕ) : Loading → Loading → Type 0 where
  -- The count lets one more call pass.
  counts :
      {s : Loading}
      → is_full s.calls t ≡ false
      → s.in_flight < width
      → Step t width s (record s { in_flight = suc s.in_flight })
  -- A call that passed is recorded.
  records :
      (new : Call) {calls : List Call} {n : ℕ}
      → Step t width
          (record { calls = calls; in_flight = suc n })
          (record { calls = new ∷ calls; in_flight = n })
  -- A call that passed is refused after all: another limit, no route or no agent.
  drops :
      {calls : List Call} {n : ℕ}
      → Step t width
          (record { calls = calls; in_flight = suc n })
          (record { calls = calls; in_flight = n })
  -- The rows change and no more calls of the tenant are active: calls go on and end, and other
  -- tenants have theirs.
  goes_on :
      (later : List Call) {s : Loading}
      → active_calls t.id later ≤ active_calls t.id s.calls
      → Step t width s (record s { calls = later })

pub data Reach (t : Tenant) (width : ℕ) (s : Loading) : Loading → Type 0 where
  here : Reach t width s s
  next : {u v : Loading} → Reach t width s u → Step t width u v → Reach t width s v

-- The active calls with those in flight.
abbrev load_of : Tenant → Loading → ℕ
load_of t s = active_calls t.id s.calls + s.in_flight

is_full-lt :
    (calls : List Call) (t : Tenant) (limit : ℕ)
    → t.max_concurrent_calls ≡ some limit
    → is_full calls t ≡ false
    → active_calls t.id calls < limit
unfolding is_full
is_full-lt calls t limit l h = ground (arith, l, h)

active_calls-record :
    (tenant : ℕ) (new : Call) (calls : List Call)
    → active_calls tenant (new ∷ calls) ≤ suc (active_calls tenant calls)
unfolding active_calls
active_calls-record tenant new calls = ground arith

module _ (t : Tenant) (width limit : ℕ) (l : t.max_concurrent_calls ≡ some limit) where
  Step-load_of :
      {s u : Loading} → Step t width s u → load_of t s < limit + width → load_of t u < limit + width
  Step-load_of (counts {s} h below) k =
      let free = is_full-lt s.calls t limit l h in omega (arith, free, below)
  Step-load_of (records new {calls} {n}) k =
      let one = active_calls-record t.id new calls in omega (arith, one, k)
  Step-load_of (drops {calls} {n}) k = omega (arith, k)
  Step-load_of (goes_on later {s} h) k = omega (arith, h, k)

  Reach-load_of :
      {s u : Loading}
      → Reach t width s u
      → load_of t s < limit + width
      → load_of t u < limit + width
  Reach-load_of here k = k
  Reach-load_of (next r s) k = Step-load_of s (Reach-load_of r k)

-- However the loading of the calls of a tenant with a limit interleaves with other calls, where at most
-- `width` of its calls are loaded at a time its active calls are fewer than the limit and `width`
-- together, so that with one at a time they never exceed the limit; if its active calls and those being
-- loaded are as few at the start.
pub Reach-active_calls :
    (t : Tenant) (width limit : ℕ) {s u : Loading}
    → t.max_concurrent_calls ≡ some limit
    → active_calls t.id s.calls + s.in_flight < limit + width
    → Reach t width s u
    → active_calls t.id u.calls < limit + width
Reach-active_calls t width limit l k r =
    let e = Reach-load_of t width limit l r k in omega (arith, e)
