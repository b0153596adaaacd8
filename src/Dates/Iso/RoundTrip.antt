-- ===== src/Dates/Iso/RoundTrip.antt =====
-- A date that is written as text (frontend/lib/utils.ts) is read back as itself.
use mentorio.Prelude.{ℕ, ◌+◌, ◌≤◌, ◌≡◌, refl, ap, ◌∙◌, some, ◌∷◌, ◌++◌, arith}
use mentorio.Prelude.Int.{pos, ◌-ℤ◌}
use mentorio.Prelude.Text.{Text, IsDigits}
use mentorio.Prelude.Number.{number, show}
use mentorio.Prelude.Number.Laws.{
  number-show, show-IsDigits, number-pad_start, pad_start-IsDigits, split-digits, split-digits_last,
}
use mentorio.Dates.{Date, get_full_year, get_month, get_date, new_date}
use mentorio.Dates.Fields.{IsDayOf, get-IsDayOf, new_date-IsDayOf}
use mentorio.Dates.Iso.{two_digits, joined_by, date_of_parts, parse_local_date, to_local_iso_date}

pub number-two_digits : (n : ℕ) → number (two_digits n) ≡ some n
number-two_digits n = number-pad_start 2 (show n) ∙ number-show n

pub two_digits-IsDigits : (n : ℕ) → IsDigits (two_digits n)
two_digits-IsDigits n = pad_start-IsDigits 2 (show n) (show-IsDigits n)

-- Any three numerals joined_by by dashes.
parse_parts :
    (y m d : Text) (year month day : ℕ)
    → IsDigits y
    → IsDigits m
    → IsDigits d
    → number y ≡ some year
    → number m ≡ some month
    → number d ≡ some day
    → parse_local_date (joined_by b'-' y m d) ≡ some (new_date year (pos month -ℤ pos 1) day)
unfolding parse_local_date
parse_parts y m d year month day dy dm dd ny nm nd =
    rw
      (
        split-digits b'-' refl y (m ++ b'-' ∷ d) dy,
        split-digits b'-' refl m d dm,
        split-digits_last b'-' refl d dd,
        date_of_parts,
        ny,
        nm,
        nd,
      )
      refl

IsDayOf-inj : (y m d : ℕ) (s t : Date) → IsDayOf y m d s → IsDayOf y m d t → s ≡ t
IsDayOf-inj y m d s t a b = omega (arith, a.place, b.place)

month_back : (m : ℕ) → pos (m + 1) -ℤ pos 1 ≡ pos m
unfolding ◌-ℤ◌
month_back m = ground arith

-- From the year 100 on, a date is read back from its "YYYY-MM-DD" text as the same date.
pub parse_local_date-to_local_iso_date :
    (t : Date) → 100 ≤ get_full_year t → parse_local_date (to_local_iso_date t) ≡ some t
unfolding to_local_iso_date
parse_local_date-to_local_iso_date t late =
    let y = get_full_year t in
    let m = get_month t in
    let d = get_date t in
    let is = get-IsDayOf t in
    parse_parts (show y) (two_digits (m + 1)) (two_digits d) y (m + 1) d (show-IsDigits y)
      (two_digits-IsDigits (m + 1)) (two_digits-IsDigits d) (number-show y)
      (number-two_digits (m + 1)) (number-two_digits d)
    ∙ ap some (
        ap (λ k. new_date y k d) (month_back m)
        ∙ IsDayOf-inj y m d _ t (new_date-IsDayOf y m d late is.month_in is.day_in.0 is.day_in.1)
            is)
