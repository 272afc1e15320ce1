-- ===== src/Loader/Limits.antt =====
-- `_enforce_limits` of services/ai-agent-worker/worker/config_loader.py, with the three queries that it
-- runs. Instants are whole seconds; the calls that a query reads started in the past. What the
-- database makes of a zone is an argument: the date of an instant, and the first day of a date's
-- month, both as day numbers. Here the queries of one check read the same rows; `Concurrency` lets
-- other calls come in between.
use live_kit_voice_agent.Prelude.{
  ℕ, ◌+◌, ◌-◌, ◌/◌, Bool, true, false, not, ◌&&◌, Option, none, some, List, [], ◌∷◌, if◌then◌else◌,
  leb, ◌==◌,
}
use live_kit_voice_agent.Prelude.Text.{Text, text, is_truthy}
use live_kit_voice_agent.Call.State.{CallState, is_terminal}

pub record Calendar : Type 0 where
  pub date_in : Text → ℕ → ℕ
  pub month_start : ℕ → ℕ

-- A row of `calls`.
pub record Call : Type 0 where
  pub tenant_id : ℕ
  pub state : CallState
  pub start_time : Option ℕ
  pub duration_seconds : Option ℕ

-- The limits of the row that `_RESOLVE_SQL` returns.
pub record Tenant : Type 0 where
  pub id : ℕ
  pub timezone : Option Text
  pub max_concurrent_calls : Option ℕ
  pub max_daily_calls : Option ℕ
  pub max_monthly_minutes : Option ℕ

-- The `limit` of `TenantLimitExceededError`.
pub data Limit : Type 0 where
  max_concurrent_calls max_daily_calls max_monthly_minutes : Limit

abbrev pub is_of : ℕ → Call → Bool
is_of tenant c = c.tenant_id == tenant

-- `_CONCURRENCY_SQL`
unfoldable pub active_calls : ℕ → List Call → ℕ
active_calls tenant [] = 0
active_calls tenant (c ∷ cs) =
    if is_of tenant c && not (is_terminal c.state)
    then 1 + active_calls tenant cs
    else active_calls tenant cs

module _ (calendar : Calendar) (now : ℕ) (zone : Text) where
  abbrev pub today : ℕ
  today = calendar.date_in zone now

  -- A NULL start time is on no day.
  abbrev pub is_today : Option ℕ → Bool
  is_today none = false
  is_today (some start) = calendar.date_in zone start == today

  abbrev pub is_this_month : Option ℕ → Bool
  is_this_month none = false
  is_this_month (some start) = leb (calendar.month_start today) (calendar.date_in zone start)

  -- `_DAILY_CALLS_SQL`
  unfoldable pub daily_calls : ℕ → List Call → ℕ
  daily_calls tenant [] = 0
  daily_calls tenant (c ∷ cs) =
      if is_of tenant c && is_today c.start_time
      then 1 + daily_calls tenant cs
      else daily_calls tenant cs

  -- The `CASE` of `_MONTHLY_SECONDS_SQL`.
  abbrev pub seconds_of : Option ℕ → Bool → Option ℕ → ℕ
  seconds_of (some duration) terminal start = duration
  seconds_of none false (some start) = now - start
  seconds_of none false none = 0
  seconds_of none true start = 0

  -- `_MONTHLY_SECONDS_SQL`
  unfoldable pub monthly_seconds : ℕ → List Call → ℕ
  monthly_seconds tenant [] = 0
  monthly_seconds tenant (c ∷ cs) =
      if is_of tenant c && is_this_month c.start_time
      then seconds_of c.duration_seconds (is_terminal c.state) c.start_time
        + monthly_seconds tenant cs
      else monthly_seconds tenant cs

-- `max_… is not None` and `used >= max_…`
abbrev pub is_reached : Option ℕ → ℕ → Bool
is_reached none used = false
is_reached (some limit) used = leb limit used

-- `row["tenant_timezone"] or "UTC"`
abbrev pub timezone_of : Tenant → Text
timezone_of t = elim t.timezone [
  | none ↦ text "UTC"
  | some z ↦ if is_truthy z then z else text "UTC"
]

-- The first test of `_enforce_limits`.
unfoldable pub is_full : List Call → Tenant → Bool
unfolding active_calls
is_full calls t = is_reached t.max_concurrent_calls (active_calls t.id calls)

-- `_enforce_limits`: the limit that refuses the call, if one does.
unfoldable pub enforce_limits : Calendar → ℕ → List Call → Tenant → Option Limit
unfolding is_full daily_calls monthly_seconds
enforce_limits calendar now calls t =
    let zone = timezone_of t in
    if is_full calls t
    then some max_concurrent_calls
    else if is_reached t.max_daily_calls (daily_calls calendar now zone t.id calls)
    then some max_daily_calls
    else if is_reached t.max_monthly_minutes (monthly_seconds calendar now zone t.id calls / 60)
    then some max_monthly_minutes
    else none
