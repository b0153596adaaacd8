-- ===== src/Dates.antt =====
-- The local calendar dates that frontend/lib/utils.ts and the date widgets compute with: JavaScript's
-- `Date` at midnight, as the number of its day, counted from January 1st of year 0. Months count from
-- 0. There are no days before that one: a computation that ends before it ends on it.
pub mod Fields
pub mod Iso
pub mod Months
pub mod Week
mod Tests
use mentorio.Prelude.{
  ℕ, zero, suc, ◌+◌, ◌-◌, ◌*◌, ◌/◌, ◌%◌, Bool, true, false, not, ◌&&◌, ◌||◌, if◌then◌else◌, ◌==◌,
  leb,
}
use mentorio.Prelude.Int.{ℤ, pos, pos_part, ◌+ℤ◌, ◌-ℤ◌}

abbrev pub Date : Type 0
Date = ℕ

unfoldable pub is_leap : ℕ → Bool
is_leap y = y % 4 == 0 && (not (y % 100 == 0) || y % 400 == 0)

unfoldable pub days_in_month : ℕ → ℕ → ℕ
days_in_month y m =
    if m == 1
    then (if is_leap y then 29 else 28)
    else if m == 3 || (m == 5 || (m == 8 || m == 10))
    then 30
    else 31

-- The days before the first of a month, in its year.
unfoldable pub days_before_month : ℕ → ℕ → ℕ
days_before_month y zero = 0
days_before_month y (suc m) = days_before_month y m + days_in_month y m

-- The day that year `y` begins on.
unfoldable pub year_start : ℕ → Date
year_start y = 365 * y + (y + 3) / 4 + (y + 399) / 400 - (y + 99) / 100

unfoldable pub month_start : ℕ → ℕ → Date
month_start y m = year_start y + days_before_month y m

-- The last year from `y` down that begins by day `t`.
unfoldable pub year_down : ℕ → Date → ℕ
year_down zero t = 0
year_down (suc y) t =
    let sooner = year_down y t in if leb (year_start (suc y)) t then suc y else sooner

unfoldable pub get_full_year : Date → ℕ
get_full_year t = year_down (t / 365) t

-- The last month from `m` down that begins by day `t`, in year `y`.
unfoldable pub month_down : ℕ → ℕ → Date → ℕ
month_down y zero t = 0
month_down y (suc m) t =
    let sooner = month_down y m t in if leb (month_start y (suc m)) t then suc m else sooner

unfoldable pub get_month : Date → ℕ
get_month t = month_down (get_full_year t) 11 t

unfoldable pub get_date : Date → ℕ
get_date t = t + 1 - month_start (get_full_year t) (get_month t)

-- 0 is Sunday. Day 0 was a Saturday.
unfoldable pub get_day : Date → ℕ
get_day t = (t + 6) % 7

-- A year below 100 is one of the last century.
abbrev pub full_year : ℕ → ℕ
full_year y = if leb y 99 then 1900 + y else y

-- Month `m` of year `y` on a scale of months, in which one year follows the other.
abbrev pub month_index : ℕ → ℤ → ℕ
month_index y m = pos_part (pos (12 * y) +ℤ m)

-- `new Date(y, m, d)`: months and days beyond their range count on.
unfoldable pub new_date : ℕ → ℤ → ℕ → Date
new_date y m d = let i = month_index (full_year y) m in month_start (i / 12) (i % 12) + d - 1

-- `t.setDate(d)`
unfoldable pub set_date : Date → ℤ → Date
set_date t d = pos_part (pos (month_start (get_full_year t) (get_month t)) +ℤ d -ℤ pos 1)
