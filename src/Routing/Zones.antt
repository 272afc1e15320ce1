-- ===== src/Routing/Zones.antt =====
-- The time zone in which `resolve_route` reads the clock.
use live_kit_voice_agent.Prelude.{
  ℕ, ◌≡◌, refl, Bool, true, ◌&&◌, Option, none, some, List, [], ◌∷◌, arith, Option-cases,
  Bool-cases, inl, inr, ◌==◌,
}
use live_kit_voice_agent.Prelude.Sorting.{sorted}
use live_kit_voice_agent.Prelude.Text.{Text, is_truthy}
use live_kit_voice_agent.Routing.Hours.{
  HoursMap, Hours, LocalTime, HoursRow, hours_of, timezone_or_utc, add_row, add_rows, rows_of,
  load_hours_map, Interval, add_interval, new_hours,
}
use live_kit_voice_agent.Routing.Resolve.{
  Rule, Inquiry, Tables, matches, is_ahead, is_closed_now, is_open_now, judge, first_route,
  hours_ids, select_rules, resolve_route,
}

abbrev have_zones : HoursMap → Bool
have_zones [] = true
have_zones ((i, h) ∷ m) = is_truthy h.timezone && have_zones m

timezone_or_utc_lem : (t : Option Text) → is_truthy (timezone_or_utc t) ≡ true
unfolding timezone_or_utc
timezone_or_utc_lem none = refl
timezone_or_utc_lem (some []) = refl
timezone_or_utc_lem (some (c ∷ cs)) = refl

add_interval-timezone : (i : Option Interval) (h : Hours) → (add_interval i h).timezone ≡ h.timezone
add_interval-timezone none h = refl
add_interval-timezone (some i) h = refl

new_hours-timezone : (r : HoursRow) → is_truthy (new_hours r).timezone ≡ true
unfolding new_hours
new_hours-timezone r = timezone_or_utc_lem r.timezone

add_row-zones :
    (m : HoursMap) (r : HoursRow) → have_zones m ≡ true → have_zones (add_row m r) ≡ true
unfolding add_row
add_row-zones [] r h =
    let kept = add_interval-timezone r.interval (new_hours r) in
    let zone = new_hours-timezone r in ground (arith, kept, zone)
add_row-zones ((i, o) ∷ m) r h =
    let rest = add_row-zones m r (ground arith) in
    let kept = add_interval-timezone r.interval o in ground (arith, rest, kept)

add_rows-zones :
    (m : HoursMap) (rs : List HoursRow) → have_zones m ≡ true → have_zones (add_rows m rs) ≡ true
unfolding add_rows
add_rows-zones m [] h = h
add_rows-zones m (r ∷ rs) h = add_rows-zones (add_row m r) rs (add_row-zones m r h)

load_hours_map-zones :
    (table : List HoursRow) (ids : List ℕ) → have_zones (load_hours_map table ids) ≡ true
unfolding load_hours_map
load_hours_map-zones table [] = refl
load_hours_map-zones table (i ∷ ids) = add_rows-zones [] (rows_of (i ∷ ids) table) refl

hours_of-zones :
    (m : HoursMap) (i : ℕ) (h : Hours)
    → have_zones m ≡ true
    → hours_of m i ≡ some h
    → is_truthy h.timezone ≡ true
hours_of-zones [] i h z e = cc
hours_of-zones ((j, g) ∷ m) i h z e = elim (Bool-cases (j == i)) [
  | inl same ↦
      let f : g ≡ h = ground (arith, same) in
      let t : is_truthy g.timezone ≡ true = ground arith in cc
  | inr differs ↦ hours_of-zones m i h (ground arith) (ground (arith, differs))
]

module _ (local : Text → Option LocalTime) (hours : HoursMap) (z : have_zones hours ≡ true) where
  is_open_now_zone :
      (t u : Text) (i : ℕ)
      → is_open_now local t (hours_of hours i) ≡ is_open_now local u (hours_of hours i)
  unfolding is_open_now
  is_open_now_zone t u i = elim (Option-cases (hours_of hours i)) [
    | inl e ↦ ground (arith, e)
    | inr (h, e) ↦ let f = hours_of-zones hours i h z e in ground (arith, e, f)
  ]

  is_closed_now_zone :
      (t u : Text) (i : Option ℕ) → is_closed_now local hours t i ≡ is_closed_now local hours u i
  unfolding is_closed_now
  is_closed_now_zone t u none = refl
  is_closed_now_zone t u (some i) = let e = is_open_now_zone t u i in ground (arith, e)

  judge_zone :
      (q : Inquiry) (t : Text) (r : Rule)
      → judge local hours (record q { tenant_timezone = t }) r ≡ judge local hours q r
  unfolding judge matches
  judge_zone q t r = rw (is_closed_now_zone t q.tenant_timezone r.business_hours_id)

  first_route_zone :
      (q : Inquiry) (t : Text) (rs : List Rule)
      → first_route local hours (record q { tenant_timezone = t }) rs ≡ first_route local hours q rs
  unfolding first_route
  first_route_zone q t [] = refl
  first_route_zone q t (r ∷ rs) =
      let here = judge_zone q t r in
      let rest = first_route_zone q t rs in ground (arith, here, rest)

-- The time zone of the tenant has no bearing on the route.
pub resolve_route_timezone :
    (name_le : Text → Text → Bool) (local : Text → Option LocalTime) (db : Tables) (q : Inquiry)
    (t : Text)
    → resolve_route name_le local db (record q { tenant_timezone = t })
      ≡ resolve_route name_le local db q
unfolding resolve_route select_rules
resolve_route_timezone name_le local db q t =
    let rules = select_rules name_le db q in
    first_route_zone local (load_hours_map db.hours (hours_ids rules))
      (load_hours_map-zones db.hours (hours_ids rules)) q t (sorted is_ahead rules)
