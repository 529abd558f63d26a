-- ===== src/Mhd/Calendar/Dates.antt =====
-- The dates of a week on which backend/mhd-preprocessor/src/gtfs_store.go takes a service to run.
use rio_t_preprocessors.Base.{
  ℕ, zero, suc, ◌+◌, ◌<◌, Bool, true, false, String, string_eq, ◌==◌, if◌then◌else◌, Option, none,
  some, List, [], ◌∷◌, ◌++◌, append-nil, append_assoc, filter_b, ◌≡◌, refl, sym, ap, subst, arith,
}
use rio_t_preprocessors.Base.Int.{pos, eq_ℤ}
use rio_t_preprocessors.Base.Time.{Time, before}
use rio_t_preprocessors.Base.Maps.{Dict, lookup}
use rio_t_preprocessors.Mhd.Calendar.{
  Location, CalendarRow, CalendarDateException, is_scheduled, apply_exceptions, active_loop,
  active_service_dates, or_none,
}

-- What the last of the exceptions for a day says.
abbrev pub last_exception : Time → List CalendarDateException → Option Bool
last_exception day [] = none
last_exception day (exception ∷ rest) = elim (last_exception day rest) [
  | some active ↦ some active
  | none ↦ if eq_ℤ exception.date day then some (exception.exception_type == "1") else none
]

abbrev pub or_else : Option Bool → Bool → Bool
or_else none b = b
or_else (some a) b = a

pub apply_exceptions_lem :
    (day : Time) (active : Bool) (exceptions : List CalendarDateException)
    → apply_exceptions day active exceptions ≡ or_else (last_exception day exceptions) active
unfolding apply_exceptions
apply_exceptions_lem day active [] = refl
apply_exceptions_lem day active (exception ∷ rest) = ground (
  arith,
  apply_exceptions_lem day
      (if eq_ℤ exception.date day then exception.exception_type == "1" else active) rest,
)

-- The calendar at the start of a week: the days follow each other, each after the one before. Go's
-- `AddDate` does so where every day of the week has the hour of its start.
pub record IsRegular (location : Location) (start : Time) : Type 0 where
  pub no_days : location.add_days start (pos 0) ≡ start
  pub next_day :
      (k : ℕ)
      → location.add_days (location.add_days start (pos k)) (pos 1)
        ≡ location.add_days start (pos (suc k))
  pub in_order :
      (j k : ℕ)
      → j < k
      → before (location.add_days start (pos j)) (location.add_days start (pos k)) ≡ true

before_self : (t : Time) → before t t ≡ false
before_self t = ground arith

collect_lem {ℓ} :
    {A : Type ℓ} (day : A) (active : Bool) (result rest : List A)
    → (if active then result ++ (day ∷ []) else result) ++ rest
      ≡ result ++ (if active then day ∷ rest else rest)
collect_lem day true result rest = append_assoc result (day ∷ []) rest
collect_lem day false result rest = refl

module _ (location : Location) (start : Time) where
  -- So many days from the `k`th day on.
  abbrev pub days_from : ℕ → ℕ → List Time
  days_from k zero = []
  days_from k (suc n) = location.add_days start (pos k) ∷ days_from (suc k) n

  -- An exception for the day decides, the last one if there are several, and else the calendar.
  abbrev pub is_service_day : Option CalendarRow → List CalendarDateException → Time → Bool
  is_service_day row exceptions day =
      or_else (last_exception day exceptions) (is_scheduled location row day)

  module _ (regular : IsRegular location start) (row : Option CalendarRow)
      (exceptions : List CalendarDateException) where
    active_loop_lem :
        (n k m : ℕ) (result : List Time)
        → k + n ≡ m
        → active_loop location row exceptions
            (location.add_days start (pos m))
            (suc n)
            result
            (location.add_days start (pos k))
          ≡ some (result ++ filter_b (is_service_day row exceptions) (days_from k n))
    unfolding active_loop
    active_loop_lem zero k m result h =
        let e : k ≡ m = omega (arith, h) in
        rw (sym e, before_self (location.add_days start (pos k)), append-nil result) refl
    active_loop_lem (suc n) k m result h =
        let day = location.add_days start (pos k) in
        let active = apply_exceptions day (is_scheduled location row day) exceptions in
        rw
          (
            active_loop,
            regular.in_order k m (omega (arith, h)),
            regular.next_day k,
            active_loop_lem n (suc k) m (if active then result ++ (day ∷ []) else result)
                (omega (arith, h)),
            sym (apply_exceptions_lem day (is_scheduled location row day) exceptions),
          )
          (ap some (
            collect_lem day active result
              (filter_b (is_service_day row exceptions) (days_from (suc k) n))))

  -- In a week whose days follow each other regularly, a service runs on exactly those of its seven days,
  -- in order, that the last exception for the day adds, or that the calendar has and no exception is for.
  pub active_service_dates-week :
      (service_id : String) (calendar : Dict String CalendarRow)
      (exceptions : Dict String (List CalendarDateException))
      → IsRegular location start
      → active_service_dates location service_id calendar exceptions start
          (location.add_days start (pos 7))
        ≡ some (
            filter_b
              (is_service_day (lookup service_id calendar) (or_none (lookup service_id exceptions)))
              (days_from 0 7))
  unfolding active_service_dates
  active_service_dates-week service_id calendar exceptions regular =
      let row = lookup service_id calendar in
      let listed = or_none (lookup service_id exceptions) in
      subst
        (λ day.
          active_loop location row listed (location.add_days start (pos 7)) 8 [] day
          ≡ some (filter_b (is_service_day row listed) (days_from 0 7)))
        regular.no_days (active_loop_lem regular row listed 7 0 7 [] (omega arith))
