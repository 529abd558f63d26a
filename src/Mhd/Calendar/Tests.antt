-- ===== src/Mhd/Calendar/Tests.antt =====
-- A calendar that counts days from a Sunday, and a service on it.
use rio_t_preprocessors.Base.{ltb, String, string_eq, nat_eq, some, List, [], ◌∷◌, refl, ◌≡◌, arith}
use rio_t_preprocessors.Base.Int.{pos}
use rio_t_preprocessors.Base.Maps.{lookup}
use rio_t_preprocessors.Base.Sorting.{sort_stable, insert_sorted}
use rio_t_preprocessors.Base.Text.{trim_space, trim_left, trim_right, is_space}
use rio_t_preprocessors.Mhd.Samples.{day_count}
use rio_t_preprocessors.Mhd.Calendar.{
  CalendarRow, CalendarDateException, is_scheduled, merge_service_days, add_unseen,
  sort_service_day_codes, service_day_code_order, active_service_dates,
}
use rio_t_preprocessors.Mhd.Calendar.Days.{IsMerge, merge_service_days_lem}
use rio_t_preprocessors.Mhd.Calendar.Dates.{IsRegular, active_service_dates-week}

monday-IsRegular : IsRegular day_count (pos 1)
monday-IsRegular = record {
  no_days = refl;
  next_day = λ k. ground arith;
  in_order = λ j k h. ground (arith, h);
}

abbrev weekdays_row : CalendarRow
weekdays_row = record {
  service_id = "5";
  start_date = pos 0;
  end_date = pos 100;
  days = λ day. ltb 0 day;
}

abbrev not_tuesday : CalendarDateException
not_tuesday = record { date = pos 2; service_id = "5"; exception_type = "2" }

active_service_dates-week_example :
    active_service_dates day_count "5"
      (("5", weekdays_row) ∷ [])
      (("5", not_tuesday ∷ []) ∷ [])
      (pos 1)
      (pos 8)
    ≡ some (pos 1 ∷ pos 3 ∷ pos 4 ∷ pos 5 ∷ pos 6 ∷ [])
unfolding lookup is_scheduled
active_service_dates-week_example =
    active_service_dates-week day_count (pos 1) "5" (("5", weekdays_row) ∷ [])
      (("5", not_tuesday ∷ []) ∷ []) monday-IsRegular

abbrev merged_days : List String
merged_days = "Mo" ∷ "We" ∷ "Su" ∷ []

merge_service_days_lem_example : IsMerge ("Su" ∷ "Mo" ∷ []) ("We" ∷ "Mo" ∷ []) merged_days
unfolding merge_service_days add_unseen sort_service_day_codes sort_stable insert_sorted
    service_day_code_order trim_space trim_left trim_right is_space
merge_service_days_lem_example = merge_service_days_lem ("Su" ∷ "Mo" ∷ []) ("We" ∷ "Mo" ∷ [])
