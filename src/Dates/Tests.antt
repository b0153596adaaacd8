-- ===== src/Dates/Tests.antt =====
-- Some dates of 2024 and 2026, and the theorems about dates at them.
use mentorio.Prelude.{ℕ, arith, [], ◌∷◌, ◌≡◌, refl, some, get_elem?, map, ◌+◌, ◌%◌, ◌<◌, ◌≤◌, ◌*◌}
use mentorio.Prelude.Int.{pos, negsuc, ◌+ℤ◌, ◌-ℤ◌}
use mentorio.Prelude.Text.{codes}
use mentorio.Prelude.Number.{number_from, number, split, show, pad_start}
use mentorio.Dates.{
  Date, is_leap, days_in_month, days_before_month, year_start, month_start, year_down,
  get_full_year, month_down, get_month, get_date, get_day, new_date, set_date,
}
use mentorio.Dates.Iso.{
  parse_local_date, to_local_iso_date, days_from_today_iso, month_first, format_date,
}
use mentorio.Dates.Iso.RoundTrip.{parse_local_date-to_local_iso_date}
use mentorio.Dates.Week.{get_monday_of, build_week, current_monday, week_start_of}
use mentorio.Dates.Week.Columns.{build_week-current_monday}
use mentorio.Dates.Months.{
  to_period, shift_period, period_date, last_n_month_keys, month_start_iso, add_months, build_grid,
  weekday_anchor,
}
use mentorio.Dates.Months.Shift.{month_of, shift_period-to_period}
use mentorio.Dates.Months.Grid.{build_grid-add_months}

-- February 29th, 2024, a Thursday.
abbrev leap_day : Date
leap_day = 739310

-- January 31st, 2026, a Saturday.
abbrev month_end : Date
month_end = 740012

fields :
    (get_full_year leap_day ≡ 2024)
    × (get_month leap_day ≡ 1)
    × (get_date leap_day ≡ 29)
    × (get_day leap_day ≡ 4)
unfolding get_full_year get_month get_date get_day year_down month_down year_start month_start
    days_before_month days_in_month is_leap
fields = (refl, refl, refl, refl)

ends :
    (get_full_year month_end ≡ 2026)
    × (get_month month_end ≡ 0)
    × (get_date month_end ≡ 31)
    × (get_day month_end ≡ 6)
unfolding get_full_year get_month get_date get_day year_down month_down year_start month_start
    days_before_month days_in_month is_leap
ends = (refl, refl, refl, refl)

-- A 31st of February is in March, and a month 12 in the next year.
beyond :
    (to_local_iso_date (new_date 2024 (pos 1) 31) ≡ codes "2024-03-02")
    × (to_local_iso_date (new_date 2025 (pos 12) 1) ≡ codes "2026-01-01")
    × (to_local_iso_date (set_date leap_day (negsuc 0)) ≡ codes "2024-01-30")
unfolding get_full_year get_month get_date get_day year_down month_down year_start month_start
    days_before_month days_in_month is_leap new_date set_date to_local_iso_date show pad_start ◌+ℤ◌
    ◌-ℤ◌
beyond = (refl, refl, refl)

texts :
    (parse_local_date (codes "2024-02-29") ≡ some leap_day)
    × (days_from_today_iso month_end (pos 1) ≡ codes "2026-02-01")
    × (format_date leap_day month_first ≡ codes "02/29/2024")
    × (week_start_of (codes "2024-02-29") ≡ some (codes "2024-02-26"))
unfolding get_full_year get_month get_date get_day year_down month_down year_start month_start
    days_before_month days_in_month is_leap new_date set_date to_local_iso_date show pad_start ◌+ℤ◌
    ◌-ℤ◌ parse_local_date number number_from split days_from_today_iso format_date week_start_of
texts = (refl, refl, refl, refl)

months :
    (to_period leap_day ≡ codes "2024-02")
    × (shift_period (codes "2024-02") (negsuc 1) ≡ some (codes "2023-12"))
    × (period_date (codes "2026-01") ≡ some 739982)
    × (month_start_iso month_end ≡ codes "2026-01-01")
    × (last_n_month_keys month_end 3 ≡ codes "2025-11" ∷ codes "2025-12" ∷ codes "2026-01" ∷ [])
    × (map get_day weekday_anchor ≡ 1 ∷ 2 ∷ 3 ∷ 4 ∷ 5 ∷ 6 ∷ 0 ∷ [])
unfolding get_full_year get_month get_date get_day year_down month_down year_start month_start
    days_before_month days_in_month is_leap new_date set_date to_local_iso_date show pad_start ◌+ℤ◌
    ◌-ℤ◌ parse_local_date number number_from split to_period shift_period period_date
    month_start_iso last_n_month_keys weekday_anchor
months = (refl, refl, refl, refl, refl, refl)

late_leap_day : 100 ≤ get_full_year leap_day
unfolding get_full_year get_month get_date get_day year_down month_down year_start month_start
    days_before_month days_in_month is_leap
late_leap_day = omega arith

late_month_end : 100 ≤ get_full_year month_end
unfolding get_full_year get_month get_date get_day year_down month_down year_start month_start
    days_before_month days_in_month is_leap
late_month_end = omega arith

parse_local_date-to_local_iso_date_example :
    parse_local_date (to_local_iso_date leap_day) ≡ some leap_day
parse_local_date-to_local_iso_date_example =
    parse_local_date-to_local_iso_date leap_day late_leap_day

next_week : get_monday_of month_end + 7 * 1 ≡ get_monday_of 740018 + 7 * 0
unfolding get_full_year get_month get_date get_day year_down month_down year_start month_start
    days_before_month days_in_month is_leap get_monday_of set_date ◌+ℤ◌ ◌-ℤ◌
next_week = refl

-- From Saturday, January 31st, one week on to Friday, February 6th.
build_week-current_monday_example :
    get_elem? (build_week (current_monday month_end (pos 1))) ((get_day 740018 + 6) % 7)
    ≡ some (to_local_iso_date 740018)
build_week-current_monday_example =
    build_week-current_monday month_end 740018 (pos 1) (omega arith) (omega arith) next_week

-- 23 months after February 2024.
month_gap : month_of leap_day + 23 ≡ month_of month_end + 0
unfolding get_full_year get_month get_date get_day year_down month_down year_start month_start
    days_before_month days_in_month is_leap
month_gap = refl

shift_period-to_period_example :
    shift_period (to_period leap_day) (pos 23) ≡ some (to_period month_end)
shift_period-to_period_example =
    shift_period-to_period leap_day month_end (pos 23) late_leap_day month_gap

enough : 24 ≤ month_of month_end
unfolding get_full_year get_month get_date get_day year_down month_down year_start month_start
    days_before_month days_in_month is_leap
enough = omega arith

build_grid-add_months_example :
    (i : ℕ) × (get_elem? (build_grid (add_months leap_day (pos 23))) i ≡ some month_end)
    × (i < 42)
    × (i % 7 ≡ (get_day month_end + 6) % 7)
build_grid-add_months_example =
    build_grid-add_months leap_day month_end (pos 23) late_leap_day late_month_end month_gap
