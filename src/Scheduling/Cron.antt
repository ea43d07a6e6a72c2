-- ===== src/Scheduling/Cron.antt =====
-- The cron expressions of worker/regulator_agent/savedsearches.py: `_parse_cron_field`, `Cron`. A field
-- is the list of the parts that its text splits into, of which there is always one, with their texts
-- read as numbers; a moment is a number of minutes, and the calendar's reading of it is a parameter.
use regulator.Prelude.{
  ℕ, zero, suc, ◌+◌, ◌-◌, ◌%◌, Bool, true, false, ◌&&◌, ◌||◌, not, Option, none, some, List, [],
  ◌∷◌, ◌++◌, ◌==◌, leb, ltb, any, if◌then◌else◌,
}

-- A part of a field: "*", "a-b" or "a", each with a step if it has a "/".
pub data Part : Type 0 where
  star : Option ℕ → Part
  range : (a b : ℕ) → Option ℕ → Part
  value : (a : ℕ) → Option ℕ → Part

unfoldable pub step_of : Option ℕ → ℕ
step_of none = 1
step_of (some step) = step

abbrev pub stepping : Part → ℕ
stepping (star step) = step_of step
stepping (range a b step) = step_of step
stepping (value a step) = step_of step

-- The first and the last value of a part.
unfoldable pub bounds : ℕ → ℕ → Part → ℕ × ℕ
unfolding step_of
bounds low high (star step) = (low, high)
bounds low high (range a b step) = (a, b)
bounds low high (value a step) = (a, if ltb 1 (step_of step) then high else a)

unfoldable pub is_wild : Part → Bool
unfolding step_of
is_wild (star step) = step_of step == 1
is_wild _ = false

-- range(start, end + 1, step) from `start`, of at most `fuel` values.
unfoldable pub values_from : ℕ → ℕ → ℕ → ℕ → List ℕ
values_from zero start end_ step = []
values_from (suc fuel) start end_ step =
    let more = values_from fuel (start + step) end_ step in
    if leb start end_ then start ∷ more else []

unfoldable pub part_values : ℕ → ℕ → Part → List ℕ
unfolding bounds values_from
part_values low high part =
    let (start, end_) = bounds low high part in
    values_from (suc (end_ - start)) start end_ (stepping part)

-- The step is at least 1, and the values are in order and within the field's range.
unfoldable pub is_part : ℕ → ℕ → Part → Bool
unfolding bounds
is_part low high part =
    let (start, end_) = bounds low high part in
    leb 1 (stepping part) && (leb low start && (leb end_ high && leb start end_))

-- values.discard(7) and values.add(0)
unfoldable pub discard : ℕ → List ℕ → List ℕ
discard n [] = []
discard n (v ∷ rest) = let kept = discard n rest in if v == n then kept else v ∷ kept

unfoldable pub contains : List ℕ → ℕ → Bool
contains values n = any (λ v. v == n) values

unfoldable pub sunday : Bool → List ℕ → List ℕ
unfolding discard contains
sunday is_weekday values = if is_weekday && contains values 7 then 0 ∷ discard 7 values else values

-- The loop over the parts: the values, and whether the field is a wildcard; none is a CronError.
unfoldable pub add_part : ℕ → ℕ → Part → Option (List ℕ × Bool) → Option (List ℕ × Bool)
unfolding is_part part_values is_wild
add_part low high part none = none
add_part low high part (some (values, wild)) =
    if is_part low high part
    then some (part_values low high part ++ values, is_wild part || wild)
    else none

unfoldable pub add_parts : ℕ → ℕ → List Part → Option (List ℕ × Bool)
unfolding add_part
add_parts low high [] = some ([], false)
add_parts low high (part ∷ rest) = add_part low high part (add_parts low high rest)

unfoldable pub finish_field : Bool → Option (List ℕ × Bool) → Option (List ℕ × Bool)
unfolding sunday
finish_field is_weekday none = none
finish_field is_weekday (some (values, wild)) = some (sunday is_weekday values, wild)

unfoldable pub parse_cron_field : Bool → ℕ → ℕ → List Part → Option (List ℕ × Bool)
unfolding add_parts finish_field
parse_cron_field is_weekday low high parts = finish_field is_weekday (add_parts low high parts)

pub record Cron : Type 0 where
  pub minutes : List ℕ
  pub hours : List ℕ
  pub days : List ℕ
  pub months : List ℕ
  pub weekdays : List ℕ
  pub day_wild : Bool
  pub weekday_wild : Bool

-- What a datetime reads; its weekday counts from Monday.
pub record Moment : Type 0 where
  pub minute : ℕ
  pub hour : ℕ
  pub day : ℕ
  pub month : ℕ
  pub weekday : ℕ

unfoldable pub day_matches : Cron → Moment → Bool
unfolding contains
day_matches cron m =
    let day_ok = contains cron.days m.day in
    let weekday_ok = contains cron.weekdays ((m.weekday + 1) % 7) in
    if cron.day_wild && cron.weekday_wild
    then true
    else if cron.day_wild
    then weekday_ok
    else if cron.weekday_wild
    then day_ok
    else day_ok || weekday_ok

unfoldable pub matches : Cron → Moment → Bool
unfolding day_matches
matches cron m =
    if not (contains cron.minutes m.minute) || not (contains cron.hours m.hour)
    then false
    else if not (contains cron.months m.month)
    then false
    else day_matches cron m

-- `parse_cron` of the five fields.
unfoldable pub cron_of :
    Option (List ℕ × Bool)
    → Option (List ℕ × Bool)
    → Option (List ℕ × Bool)
    → Option (List ℕ × Bool)
    → Option (List ℕ × Bool)
    → Option Cron
cron_of (some minutes) (some hours) (some days) (some months) (some weekdays) = some record {
  minutes = minutes.0;
  hours = hours.0;
  days = days.0;
  months = months.0;
  weekdays = weekdays.0;
  day_wild = days.1;
  weekday_wild = weekdays.1;
}
cron_of _ _ _ _ _ = none

unfoldable pub parse_cron : List (List Part) → Option Cron
unfolding cron_of parse_cron_field
parse_cron (minute ∷ hour ∷ day ∷ month ∷ weekday ∷ []) =
    cron_of (parse_cron_field false 0 59 minute) (parse_cron_field false 0 23 hour)
      (parse_cron_field false 1 31 day) (parse_cron_field false 1 12 month)
      (parse_cron_field true 0 7 weekday)
parse_cron _ = none

module _ (calendar : ℕ → Moment) where
  -- The loop of `next_after`, over at most `limit` minutes from `candidate`.
  unfoldable pub search_from : Cron → ℕ → ℕ → Option ℕ
  unfolding matches
  search_from cron zero candidate = none
  search_from cron (suc limit) candidate =
      let later = search_from cron limit (suc candidate) in
      if matches cron (calendar candidate) then some candidate else later

  unfoldable pub next_after : Cron → ℕ → ℕ → Option ℕ
  unfolding search_from
  next_after cron moment limit = search_from cron limit (suc moment)

  -- The firings in `minutes` minutes from `moment`, of which `firings_per_day` takes a fortnight's.
  unfoldable pub count_firings : Cron → ℕ → ℕ → ℕ
  unfolding matches
  count_firings cron zero moment = 0
  count_firings cron (suc minutes) moment =
      let rest = count_firings cron minutes (suc moment) in
      if matches cron (calendar moment) then suc rest else rest
