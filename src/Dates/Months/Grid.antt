-- ===== src/Dates/Months/Grid.antt =====
-- The calendar's grid of six weeks holds the whole month that it is opened at.
use mathlib.Core.Path.{ap₂}
use mentorio.Prelude.{
  ℕ, ◌+◌, ◌-◌, ◌/◌, ◌%◌, ◌≤◌, ◌<◌, ◌≡◌, ◌↔◌, ap, ◌∙◌, arith, true, some, get_elem?, get_elem?-table,
}
use mentorio.Prelude.Int.{ℤ, pos, pos_part, neg_part, ◌+ℤ◌, ◌-ℤ◌, int_laws}
use mentorio.Dates.{
  Date, month_start, year_start, get_full_year, get_month, get_date, get_day, set_date,
}
use mentorio.Dates.Fields.{get-IsDayOf, get_unique, days_in_month_bounds}
use mentorio.Dates.Week.Columns.{set_date-day}
use mentorio.Dates.Months.{start_of_month, add_months, is_same_day, build_grid}
use mentorio.Dates.Months.Shift.{month_of, first_of, first_of-IsDayOf, new_date-first}

pub start_of_month_lem :
    (t : Date) → 100 ≤ get_full_year t → start_of_month t ≡ first_of (month_of t)
unfolding start_of_month
start_of_month_lem t late = new_date-first (get_full_year t) (month_of t) _ late (omega arith)

month_of-first_of : (i : ℕ) → month_of (first_of i) ≡ i
month_of-first_of i =
    let (y, m, _) = get_unique (i / 12) (i % 12) 1 (first_of i) (first_of-IsDayOf i) in omega arith

-- The calendar's arrows: the month shown moves by `delta`, and it is again a first of the month.
add_months_lem :
    (t : Date) (delta : ℤ) (i : ℕ)
    → 100 ≤ get_full_year t
    → month_of t + pos_part delta ≡ i + neg_part delta
    → add_months t delta ≡ first_of i
unfolding add_months
add_months_lem t delta i late h = new_date-first (get_full_year t) i _ late (omega int_laws)

set_date-back : (t : Date) (n : ℕ) → n ≤ t → set_date t (pos (get_date t) -ℤ pos n) ≡ t - n
unfolding set_date ◌+ℤ◌ ◌-ℤ◌
set_date-back t n h = ground (arith, (get-IsDayOf t).place)

get_elem?-build_grid :
    (first : Date) (i : ℕ)
    → 6 ≤ first
    → i < 42
    → get_elem? (build_grid first) i ≡ some (first - (get_day first + 6) % 7 + i)
unfolding build_grid
get_elem?-build_grid first i room h =
    let start = set_date first (pos (get_date first) -ℤ pos ((get_day first + 6) % 7)) in
    get_elem?-table (λ k. set_date start (pos (get_date start + k))) 42 i h
    ∙ ap some (set_date-day start i ∙ ap (λ k. k + i) (set_date-back first _ (omega arith)))

-- The weekday in which a month begins, counted from Monday.
abbrev pub first_weekday : ℕ → ℕ
first_weekday i = (get_day (first_of i) + 6) % 7

late_first : (i : ℕ) → 1200 ≤ i → 6 ≤ first_of i
unfolding month_start year_start
late_first i h = omega arith

first_of-place : (t : Date) → first_of (month_of t) + get_date t ≡ t + 1
first_of-place t =
    let is = get-IsDayOf t in
    ap (λ k. k + get_date t)
      (ap₂ month_start (omega (arith, is.month_in)) (omega (arith, is.month_in)))
    ∙ is.place

-- From the year 100 on, the calendar moved by `delta` months, back where negative, shows each date of
-- the month that it has come to, in one of the six weeks and in the column of the date's weekday.
pub build_grid-add_months :
    (view t : Date) (delta : ℤ)
    → 100 ≤ get_full_year view
    → 100 ≤ get_full_year t
    → month_of view + pos_part delta ≡ month_of t + neg_part delta
    → (i : ℕ) × (get_elem? (build_grid (add_months view delta)) i ≡ some t)
      × (i < 42)
      × (i % 7 ≡ (get_day t + 6) % 7)
unfolding get_day
build_grid-add_months view t delta late late' h =
    let m = month_of t in
    let place = first_of-place t in
    let day = get-IsDayOf t in
    let i = first_weekday m + get_date t - 1 in
    let room : i < 42 =
      omega (arith, day.day_in, days_in_month_bounds (get_full_year t) (get_month t)) in
    (
      i,
      rw (add_months_lem view delta m late h) (
          get_elem?-build_grid (first_of m) i (late_first m (omega arith)) room
          ∙ ap some (omega (arith, late_first m (omega arith), day.day_in))),
      room,
      omega (arith, day.day_in),
    )

-- The calendar marks exactly the day itself.
pub is_same_day_iff : (a b : Date) → (is_same_day a b ≡ true) ↔ (a ≡ b)
unfolding is_same_day
is_same_day_iff a b =
    (λ h. ground (arith, (get-IsDayOf a).place, (get-IsDayOf b).place, h), λ e. rw e (ground arith))
