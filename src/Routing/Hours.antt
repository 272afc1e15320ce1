-- ===== src/Routing/Hours.antt =====
-- The business hours of services/ai-agent-worker/worker/routing.py: `_check_open_now` and
-- `_load_hours_map`. A time of day is its microseconds since midnight. The clock and the zone
-- database are third-party: an argument gives what the clock shows in a zone, if the name is known.
use live_kit_voice_agent.Prelude.{
  ℕ, Bool, true, not, ◌&&◌, Option, none, some, List, [], ◌∷◌, ◌++◌, if◌then◌else◌, leb, ltb, ◌==◌,
  any,
}
use live_kit_voice_agent.Prelude.Text.{Text, text, text_eq, is_truthy}

-- `DayOfWeek`
pub data DayOfWeek : Type 0 where
  monday tuesday wednesday thursday friday saturday sunday : DayOfWeek

-- The place in `_WEEKDAY_ORDER`.
abbrev pub weekday_order : DayOfWeek → ℕ
weekday_order monday = 0
weekday_order tuesday = 1
weekday_order wednesday = 2
weekday_order thursday = 3
weekday_order friday = 4
weekday_order saturday = 5
weekday_order sunday = 6

pub record Interval : Type 0 where
  pub day : DayOfWeek
  pub opens : ℕ
  pub closes : ℕ

-- An item of the JSON list of holidays; `closed` is the truth of its value, where it has one.
pub data Holiday : Type 0 where
  not_an_object : Holiday
  entry : Option Text → Option Bool → Holiday

pub record Hours : Type 0 where
  pub intervals : List Interval
  pub timezone : Text
  pub holidays : List Holiday

-- `datetime.now(UTC).astimezone(zone)`: the ISO date, the weekday and the time.
pub record LocalTime : Type 0 where
  pub today : Text
  pub weekday : DayOfWeek
  pub time : ℕ

abbrev pub is_within : LocalTime → Interval → Bool
is_within now i =
    weekday_order i.day == weekday_order now.weekday
    && (leb i.opens now.time && ltb now.time i.closes)

-- `holiday.get("closed", True)`
abbrev pub is_closed : Option Bool → Bool
is_closed none = true
is_closed (some b) = b

-- The `for` over the holidays: whether today's first holiday is open.
unfoldable pub holiday_verdict : Text → List Holiday → Option Bool
holiday_verdict today [] = none
holiday_verdict today (not_an_object ∷ hs) = holiday_verdict today hs
holiday_verdict today (entry none closed ∷ hs) = holiday_verdict today hs
holiday_verdict today (entry (some date) closed ∷ hs) =
    if text_eq date today then some (not (is_closed closed)) else holiday_verdict today hs

abbrev pub is_open_at : List Interval → LocalTime → Option Bool → Bool
is_open_at intervals now (some verdict) = verdict
is_open_at intervals now none = any (is_within now) intervals

-- `_check_open_now`, from what the clock shows in the zone.
unfoldable pub check_open_now : List Interval → Option LocalTime → List Holiday → Option Bool
unfolding holiday_verdict
check_open_now intervals none holidays = none
check_open_now intervals (some now) holidays =
    some (is_open_at intervals now (holiday_verdict now.today holidays))

-- A row of `_HOURS_SQL`: a schedule and one of its intervals, none where it has none at all.
pub record HoursRow : Type 0 where
  pub id : ℕ
  pub timezone : Option Text
  pub holidays : Option (List Holiday)
  pub interval : Option Interval

abbrev pub HoursMap : Type 0
HoursMap = List (ℕ × Hours)

abbrev pub hours_of : HoursMap → ℕ → Option Hours
hours_of [] i = none
hours_of ((j, h) ∷ m) i = if j == i then some h else hours_of m i

-- `row["timezone"] or "UTC"`
unfoldable pub timezone_or_utc : Option Text → Text
timezone_or_utc none = text "UTC"
timezone_or_utc (some t) = if is_truthy t then t else text "UTC"

-- `list(row["holidays"] or [])`
abbrev pub holidays_or_empty : Option (List Holiday) → List Holiday
holidays_or_empty none = []
holidays_or_empty (some hs) = hs

abbrev pub add_interval : Option Interval → Hours → Hours
add_interval none h = h
add_interval (some i) h = record h { intervals = h.intervals ++ (i ∷ []) }

unfoldable pub new_hours : HoursRow → Hours
unfolding timezone_or_utc
new_hours r = record {
  intervals = [];
  timezone = timezone_or_utc r.timezone;
  holidays = holidays_or_empty r.holidays;
}

-- The body of the loop of `_load_hours_map`.
unfoldable pub add_row : HoursMap → HoursRow → HoursMap
unfolding new_hours
add_row [] r = (r.id, add_interval r.interval (new_hours r)) ∷ []
add_row ((i, h) ∷ m) r =
    if i == r.id then (i, add_interval r.interval h) ∷ m else (i, h) ∷ add_row m r

unfoldable pub add_rows : HoursMap → List HoursRow → HoursMap
unfolding add_row
add_rows m [] = m
add_rows m (r ∷ rs) = add_rows (add_row m r) rs

-- `WHERE bh.id = ANY(:ids)`
abbrev pub is_any : ℕ → List ℕ → Bool
is_any i ids = any (λ j. j == i) ids

abbrev pub rows_of : List ℕ → List HoursRow → List HoursRow
rows_of ids [] = []
rows_of ids (r ∷ rs) = if is_any r.id ids then r ∷ rows_of ids rs else rows_of ids rs

-- `_load_hours_map`, from the joined rows in the order of the query.
unfoldable pub load_hours_map : List HoursRow → List ℕ → HoursMap
unfolding add_rows
load_hours_map table [] = []
load_hours_map table (i ∷ ids) = add_rows [] (rows_of (i ∷ ids) table)
