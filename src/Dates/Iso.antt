-- ===== src/Dates/Iso.antt =====
-- The date texts of frontend/lib/utils.ts: "YYYY-MM-DD" in the local calendar, and the numeric
-- formats that a user may choose.
pub mod RoundTrip
use mentorio.Prelude.{
  ℕ, zero, suc, ◌+◌, Bool, true, false, Option, none, some, List, [], ◌∷◌, ◌++◌, ◌&&◌, ◌==◌,
  if◌then◌else◌,
}
use mentorio.Prelude.Int.{ℤ, pos, ◌+ℤ◌, ◌-ℤ◌}
use mentorio.Prelude.Text.{Text, codes, is_digit}
use mentorio.Prelude.Number.{number, split, show, pad_start}
use mentorio.Dates.{Date, get_full_year, get_month, get_date, new_date, set_date}

date_of_parts : List Text → Option Date
date_of_parts (y ∷ m ∷ d ∷ _) = elim (number y) [
  | none ↦ none
  | some year ↦ elim (number m) [
    | none ↦ none
    | some month ↦ elim (number d) [
      | none ↦ none
      | some day ↦ some (new_date year (pos month -ℤ pos 1) day)
    ]
  ]
]
date_of_parts _ = none

-- `none` where the code makes an invalid date.
unfoldable pub parse_local_date : Text → Option Date
unfolding date_of_parts
parse_local_date date_only = date_of_parts (split b'-' date_only)

abbrev pub two_digits : ℕ → Text
two_digits n = pad_start 2 (show n)

-- The three texts with a separator between them.
abbrev pub joined_by : ℕ → Text → Text → Text → Text
joined_by sep a b c = a ++ sep ∷ (b ++ sep ∷ c)

unfoldable pub to_local_iso_date : Date → Text
to_local_iso_date t =
    joined_by b'-' (show (get_full_year t)) (two_digits (get_month t + 1)) (two_digits (get_date t))

-- `today` is the local date of the clock.
unfoldable pub days_from_today_iso : Date → ℤ → Text
days_from_today_iso today days = to_local_iso_date (set_date today (pos (get_date today) +ℤ days))

pub data DateFormat : Type 0 where
  month_first day_first year_first : DateFormat

-- `formatDate` with a format, on a date.
unfoldable pub format_date : Date → DateFormat → Text
format_date t month_first =
    joined_by b'/' (two_digits (get_month t + 1)) (two_digits (get_date t)) (show (get_full_year t))
format_date t day_first =
    joined_by b'/' (two_digits (get_date t)) (two_digits (get_month t + 1)) (show (get_full_year t))
format_date t year_first =
    joined_by b'-' (show (get_full_year t)) (two_digits (get_month t + 1)) (two_digits (get_date t))
