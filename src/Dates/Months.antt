-- ===== src/Dates/Months.antt =====
-- Months: the periods of frontend/app/(admin)/finance/_components/group-payments-card.tsx, the month
-- keys of frontend/lib/growth-metrics.ts, the first day of the month of
-- frontend/app/(admin)/reports/page.tsx, and the grid of frontend/components/ui/calendar.tsx.
pub mod Shift
pub mod Grid
use mentorio.Prelude.{
  ℕ, zero, suc, ◌+◌, ◌%◌, ◌&&◌, Bool, ◌==◌, Option, none, some, List, [], ◌∷◌, ◌++◌, table,
}
use mentorio.Prelude.Int.{ℤ, pos, ◌+ℤ◌, ◌-ℤ◌}
use mentorio.Prelude.Text.{Text}
use mentorio.Prelude.Number.{number, split, show}
use mentorio.Dates.{Date, get_full_year, get_month, get_date, get_day, new_date, set_date}
use mentorio.Dates.Iso.{two_digits, to_local_iso_date}

-- "YYYY-MM"
unfoldable pub to_period : Date → Text
to_period t = show (get_full_year t) ++ b'-' ∷ two_digits (get_month t + 1)

-- What `period.split("-").map(Number)` starts with; `none` where the code goes on with NaN.
year_and_month : List Text → Option (ℕ × ℕ)
year_and_month (y ∷ m ∷ _) = elim (number y) [
  | none ↦ none
  | some year ↦ elim (number m) [ none ↦ none | some month ↦ some (year, month) ]
]
year_and_month _ = none

unfoldable pub shift_period : Text → ℤ → Option Text
unfolding year_and_month
shift_period period months = elim (year_and_month (split b'-' period)) [
  | none ↦ none
  | some (year, month) ↦ some (to_period (new_date year (pos month -ℤ pos 1 +ℤ months) 1))
]

unfoldable pub period_date : Text → Option Date
unfolding year_and_month
period_date period = elim (year_and_month (split b'-' period)) [
  | none ↦ none
  | some (year, month) ↦ some (new_date year (pos month -ℤ pos 1) 1)
]

-- `monthKey`; `read` is `new Date(dateStr)`.
unfoldable pub month_key : (Text → Date) → Text → Text
month_key read date_str =
    let d = read date_str in show (get_full_year d) ++ b'-' ∷ two_digits (get_month d + 1)

-- The keys from `i - 1` months before `base` on.
month_keys : Date → ℕ → List Text
month_keys base zero = []
month_keys base (suc i) =
    let m = new_date (get_full_year base) (pos (get_month base) -ℤ pos i) 1 in
    (show (get_full_year m) ++ b'-' ∷ two_digits (get_month m + 1)) ∷ month_keys base i

unfoldable pub last_n_month_keys : Date → ℕ → List Text
unfolding month_keys
last_n_month_keys today n = month_keys (set_date today (pos 1)) n

unfoldable pub month_start_iso : Date → Text
month_start_iso now = to_local_iso_date (new_date (get_full_year now) (pos (get_month now)) 1)

unfoldable pub start_of_month : Date → Date
start_of_month date = new_date (get_full_year date) (pos (get_month date)) 1

unfoldable pub add_months : Date → ℤ → Date
add_months date delta = new_date (get_full_year date) (pos (get_month date) +ℤ delta) 1

unfoldable pub is_same_day : Date → Date → Bool
is_same_day a b =
    get_full_year a == get_full_year b && (get_month a == get_month b && get_date a == get_date b)

unfoldable pub build_grid : Date → List Date
build_grid first =
    let first_weekday = (get_day first + 6) % 7 in
    let grid_start = set_date first (pos (get_date first) -ℤ pos first_weekday) in
    table (λ i. set_date grid_start (pos (get_date grid_start + i))) 0 42

-- The dates that name the columns: the Monday January 1st, 2024, and the days after it.
unfoldable pub weekday_anchor : List Date
weekday_anchor = table (λ i. new_date 2024 (pos 0) (1 + i)) 0 7
