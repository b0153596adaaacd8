-- ===== src/Dates/Week/Columns.antt =====
-- The week that a schedule page shows holds its date in the column of the date's weekday.
use mentorio.Prelude.{
  ℕ, ◌+◌, ◌-◌, ◌*◌, ◌%◌, ◌≤◌, ◌<◌, ◌≡◌, sym, ap, ◌∙◌, arith, Bool-cases, inl, inr, some, get_elem?,
  get_elem?-table, ◌==◌,
}
use mentorio.Prelude.Int.{ℤ, pos, negsuc, pos_part, neg_part, scale, ◌+ℤ◌, ◌-ℤ◌}
use mentorio.Dates.{Date, get_full_year, get_date, get_day, set_date}
use mentorio.Dates.Fields.{get-IsDayOf}
use mentorio.Dates.Iso.{to_local_iso_date}
use mentorio.Dates.Iso.RoundTrip.{parse_local_date-to_local_iso_date}
use mentorio.Dates.Week.{get_monday_of, build_week, current_monday, week_start_of}

-- Days beyond the month's count on: a shift of the day of the month is a shift of the date.
pub set_date-shift :
    (t : Date) (d : ℤ) (n : ℕ)
    → pos_part d + t ≡ n + neg_part d
    → set_date t (pos (get_date t) +ℤ d) ≡ n
unfolding set_date ◌+ℤ◌ ◌-ℤ◌
set_date-shift t d n h = ground (arith, (get-IsDayOf t).place)

get_day_bound : (t : Date) → get_day t < 7
unfolding get_day
get_day_bound t = omega arith

-- The weekday counted from Monday.
pub get_monday_of_lem : (t : Date) → 6 ≤ t → get_monday_of t + (get_day t + 6) % 7 ≡ t
unfolding get_monday_of ◌-ℤ◌
get_monday_of_lem t h = elim (Bool-cases (get_day t == 0)) [
  | inl sunday ↦ rw sunday (ground (arith, set_date-shift t (negsuc 5) (t - 6)))
  | inr other ↦ rw other (
      ground
        (arith, get_day_bound t, set_date-shift t (pos 1 -ℤ pos (get_day t)) (t + 1 - get_day t)))
]

-- A week of dates from any date.
pub set_date-day : (t : Date) (i : ℕ) → set_date t (pos (get_date t + i)) ≡ t + i
unfolding set_date ◌+ℤ◌ ◌-ℤ◌
set_date-day t i = ground (arith, (get-IsDayOf t).place)

get_elem?-build_week :
    (monday : Date) (i : ℕ)
    → i < 7
    → get_elem? (build_week monday) i ≡ some (to_local_iso_date (monday + i))
unfolding build_week
get_elem?-build_week monday i h =
    get_elem?-table (λ k. to_local_iso_date (set_date monday (pos (get_date monday + k)))) 7 i h
    ∙ ap (λ d. some (to_local_iso_date d)) (set_date-day monday i)

current_monday_lem :
    (today : Date) (w : ℤ) (m : ℕ)
    → get_monday_of today + 7 * pos_part w ≡ m + 7 * neg_part w
    → current_monday today w ≡ m
unfolding current_monday
current_monday_lem today w m h =
    set_date-shift (get_monday_of today) (scale 7 w) m (ground (arith, h))

-- A schedule page that is moved by `week_offset` weeks (back, where negative) shows the week whose
-- Monday is that many weeks after today's, and every date of that week stands in the column of its
-- weekday, counted from Monday. Dates of year 0's first week are left aside.
pub build_week-current_monday :
    (today t : Date) (week_offset : ℤ)
    → 6 ≤ today
    → 6 ≤ t
    → get_monday_of today + 7 * pos_part week_offset ≡ get_monday_of t + 7 * neg_part week_offset
    → get_elem? (build_week (current_monday today week_offset)) ((get_day t + 6) % 7)
      ≡ some (to_local_iso_date t)
build_week-current_monday today t w h k e = rw (current_monday_lem today w (get_monday_of t) e) (
    get_elem?-build_week (get_monday_of t) ((get_day t + 6) % 7) (omega arith)
    ∙ ap (λ d. some (to_local_iso_date d)) (get_monday_of_lem t k))

-- The two ways to count back to Monday.
monday_offset_lem :
    (t : Date) → get_monday_of t ≡ set_date t (pos (get_date t) -ℤ pos ((get_day t + 6) % 7))
unfolding get_monday_of ◌+ℤ◌ ◌-ℤ◌
monday_offset_lem t = elim (Bool-cases (get_day t == 0)) [
  | inl sunday ↦ rw sunday (ap (set_date t) (ground arith))
  | inr other ↦ rw other (ap (set_date t) (ground (arith, get_day_bound t)))
]

-- From the year 100 on, the attendance trend puts a record's date into the bucket named by the
-- Monday of the week that the schedule pages show the date in.
week_start_of-get_monday_of :
    (t : Date)
    → 100 ≤ get_full_year t
    → week_start_of (to_local_iso_date t) ≡ some (to_local_iso_date (get_monday_of t))
unfolding week_start_of
week_start_of-get_monday_of t late =
    rw (parse_local_date-to_local_iso_date t late, week_start_of)
      (ap (λ d. some (to_local_iso_date d)) (sym (monday_offset_lem t)))
