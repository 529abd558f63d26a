-- ===== src/Mhd/Calendar.antt =====
-- backend/mhd-preprocessor/src/helpers.go and gtfs_store.go: the days of a week and the dates on which
-- a service runs. A `Location` holds what Go's `time` does with its calendar; a day of the week is Go's
-- number for it, from 0 for Sunday.
pub mod Days
pub mod Dates
mod Tests
use Prim.Native.Char.{code}
use rio_t_preprocessors.Base.{
  ℕ, zero, suc, ◌+◌, ◌-◌, ◌/◌, ◌%◌, ltb, nat_eq, Bool, true, false, ◌&&◌, not, String, string_eq,
  ◌==◌, if◌then◌else◌, Option, none, some, List, [], ◌∷◌, ◌++◌, map, elem, Eq, leb,
}
use rio_t_preprocessors.Base.Int.{ℤ, pos, negsuc, eq_ℤ}
use rio_t_preprocessors.Base.Sorting.{sort_stable, lower_rank}
use rio_t_preprocessors.Base.Text.{trim_space, ◌⧺◌, split_colons}
use rio_t_preprocessors.Base.Time.{Time, before, after}
use rio_t_preprocessors.Base.Maps.{Dict, lookup}

pub record Location : Type 0 where
  -- `Weekday()`, `AddDate(0, 0, n)`, and `time.Date` of the same day at midnight
  pub weekday : Time → ℕ
  pub add_days : Time → ℤ → Time
  pub midnight : Time → Time
  -- `time.Date` of the same day at an hour, a minute and a second
  pub clock : Time → ℤ → ℤ → ℤ → Time
  -- `time.ParseInLocation("20060102", ...)`
  pub parse_date : String → Option Time

unfoldable pub weekday_order : ℕ → ℕ
weekday_order day =
    if day == 1
    then 0
    else if day == 2
    then 1
    else if day == 3
    then 2
    else if day == 4
    then 3
    else if day == 5
    then 4
    else if day == 6
    then 5
    else if day == 0
    then 6
    else 7

abbrev code_order : String → ℕ
code_order code =
    if code == "Mo"
    then 0
    else if code == "Tu"
    then 1
    else if code == "We"
    then 2
    else if code == "Th"
    then 3
    else if code == "Fr"
    then 4
    else if code == "Sa"
    then 5
    else if code == "Su"
    then 6
    else 7

unfoldable pub service_day_code_order : String → ℕ
service_day_code_order code = code_order (trim_space code)

unfoldable pub sort_service_day_codes : List String → List String
sort_service_day_codes codes = sort_stable (lower_rank service_day_code_order) codes

-- The code of a day; a number that is no day has none.
unfoldable pub codes_of : ℕ → List String
codes_of day =
    if day == 1
    then "Mo" ∷ []
    else if day == 2
    then "Tu" ∷ []
    else if day == 3
    then "We" ∷ []
    else if day == 4
    then "Th" ∷ []
    else if day == 5
    then "Fr" ∷ []
    else if day == 6
    then "Sa" ∷ []
    else if day == 0
    then "Su" ∷ []
    else []

unfoldable pub collect_codes : List ℕ → List String
collect_codes [] = []
collect_codes (day ∷ days) = codes_of day ++ collect_codes days

unfoldable pub weekdays_to_codes : List ℕ → List String
weekdays_to_codes days = sort_service_day_codes (collect_codes days)

unfoldable pub map_day_name : ℕ → String
map_day_name day =
    if day == 1
    then "Monday"
    else if day == 2
    then "Tuesday"
    else if day == 3
    then "Wednesday"
    else if day == 4
    then "Thursday"
    else if day == 5
    then "Friday"
    else if day == 6
    then "Saturday"
    else if day == 0
    then "Sunday"
    else ""

-- The items that have not been seen, in order; what was seen so far is a list here.
unfoldable pub add_unseen {ℓ} : {A : Type ℓ} ⦃e : Eq A⦄ → List A → List A → List A
add_unseen result [] = result
add_unseen result (item ∷ rest) =
    add_unseen (if elem item result then result else result ++ (item ∷ [])) rest

unfoldable pub merge_service_days : List String → List String → List String
merge_service_days left right = sort_service_day_codes (add_unseen (add_unseen [] left) right)

abbrev negate_days : ℕ → ℤ
negate_days zero = pos 0
negate_days (suc n) = negsuc n

-- `len` of a text, in bytes of UTF-8.
abbrev byte_length : String → ℕ
byte_length String.[] = 0
byte_length (String.◌∷◌ c s) =
    let rest = byte_length s in
    (if ltb (code c) 0x80
      then 1
      else if ltb (code c) 0x800
      then 2
      else if ltb (code c) 0x10000
      then 3
      else 4)
    + rest

-- Go's `/` and `%` by 24, which round towards zero.
abbrev days_of : ℤ → ℤ
days_of (pos n) = pos (n / 24)
days_of (negsuc n) = negate_days ((n + 1) / 24)

abbrev hours_of : ℤ → ℤ
hours_of (pos n) = pos (n % 24)
hours_of (negsuc n) = negate_days ((n + 1) % 24)

pub record CalendarRow : Type 0 where
  pub service_id : String
  pub start_date : Time
  pub end_date : Time
  pub days : ℕ → Bool

pub record CalendarDateException : Type 0 where
  pub date : Time
  pub service_id : String
  pub exception_type : String

-- What the exceptions make of a day, one after the other.
unfoldable pub apply_exceptions : Time → Bool → List CalendarDateException → Bool
apply_exceptions day active [] = active
apply_exceptions day active (exception ∷ rest) =
    apply_exceptions day
      (if eq_ℤ exception.date day then exception.exception_type == "1" else active) rest

abbrev pub or_none : Option (List CalendarDateException) → List CalendarDateException
or_none none = []
or_none (some exceptions) = exceptions

module _ (location : Location) where
  -- `weekBounds`: the Monday of the week at midnight, and the Monday after it.
  unfoldable pub week_start : Time → Time
  week_start now =
      let day = location.weekday now in
      location.add_days (location.midnight now) (negate_days ((if day == 0 then 7 else day) - 1))

  unfoldable pub week_bounds : Time → Time × Time
  week_bounds now = (week_start now, location.add_days (week_start now) (pos 7))

  unfoldable pub map_gtfs_date : String → Option Time
  map_gtfs_date value =
      let trimmed = trim_space value in
      if byte_length trimmed == 8 then location.parse_date trimmed else none

  -- `distinctWeekdays`; its weekdays are sorted by `sort.Slice`, and no two of them are equal.
  unfoldable pub distinct_weekdays : List Time → List ℕ
  distinct_weekdays dates =
      sort_stable (lower_rank weekday_order) (add_unseen [] (map location.weekday dates))

  -- `parseGTFSClock`, on what `strconv.Atoi` gives for each of the three numbers.
  abbrev clock_of : Time → Option ℤ → Option ℤ → Option ℤ → Option Time
  clock_of base (some hour) (some minute) (some second) =
      some (location.add_days (location.clock base (hours_of hour) minute second) (days_of hour))
  clock_of base _ _ _ = none

  abbrev clock_parts : (String → Option ℤ) → Time → List String → Option Time
  clock_parts atoi base (hour ∷ minute ∷ second ∷ []) =
      clock_of base (atoi hour) (atoi minute) (atoi second)
  clock_parts atoi base _ = none

  unfoldable pub parse_gtfs_clock : (String → Option ℤ) → Time → String → Option Time
  parse_gtfs_clock atoi base clock = clock_parts atoi base (split_colons (trim_space clock))

  -- Whether the calendar has the service on a day.
  unfoldable pub is_scheduled : Option CalendarRow → Time → Bool
  is_scheduled none day = false
  is_scheduled (some row) day =
      not (before day row.start_date)
      && not (after day row.end_date)
      && row.days (location.weekday day)

  -- The loop over the days of the week, on fuel; `none` means that the fuel ran out.
  module _ (row : Option CalendarRow) (exceptions : List CalendarDateException)
      (week_end : Time) where
    unfoldable pub active_loop : ℕ → List Time → Time → Option (List Time)
    active_loop zero result cursor = none
    active_loop (suc fuel) result cursor =
        let active = apply_exceptions cursor (is_scheduled row cursor) exceptions in
        let later =
          active_loop fuel (if active then result ++ (cursor ∷ []) else result)
            (location.add_days cursor (pos 1)) in
        if before cursor week_end then later else some result

  -- Eight rounds are enough for the seven days of a week.
  unfoldable pub active_service_dates :
      String
      → Dict String CalendarRow
      → Dict String (List CalendarDateException)
      → Time
      → Time
      → Option (List Time)
  active_service_dates service_id calendar exceptions week_begin week_end =
      active_loop (lookup service_id calendar) (or_none (lookup service_id exceptions)) week_end 8
        [] week_begin
