-- ===== src/Dates/Months/Shift.antt =====
-- Months on one scale: a month is the number of months since the beginning of year 0.
use mathlib.Core.Path.{ap₂}
use mentorio.Prelude.{
  ℕ, zero, suc, ◌+◌, ◌-◌, ◌*◌, ◌/◌, ◌%◌, ◌≤◌, ◌<◌, ◌≡◌, refl, sym, ap, ◌∙◌, arith, some, get_elem?,
  ◌∷◌, ◌++◌,
}
use mentorio.Prelude.Int.{ℤ, pos, pos_part, neg_part, ◌+ℤ◌, ◌-ℤ◌, int_laws}
use mentorio.Prelude.Text.{Text}
use mentorio.Prelude.Number.{split, show}
use mentorio.Prelude.Number.Laws.{number-show, show-IsDigits, split-digits, split-digits_last}
use mentorio.Dates.{
  Date, month_start, full_year, month_index, get_full_year, get_month, new_date, set_date,
}
use mentorio.Dates.Fields.{IsDayOf, get-IsDayOf, get_unique, days_in_month_bounds}
use mentorio.Dates.Iso.{two_digits}
use mentorio.Dates.Iso.RoundTrip.{number-two_digits, two_digits-IsDigits}
use mentorio.Dates.Months.{
  to_period, shift_period, year_and_month, month_key, month_keys, last_n_month_keys,
}

abbrev pub month_of : Date → ℕ
month_of t = 12 * get_full_year t + get_month t

abbrev pub first_of : ℕ → Date
first_of i = month_start (i / 12) (i % 12)

pub first_of-IsDayOf : (i : ℕ) → IsDayOf (i / 12) (i % 12) 1 (first_of i)
first_of-IsDayOf i = record {
  month_in = omega arith;
  day_in = omega (arith, days_in_month_bounds (i / 12) (i % 12));
  place = omega arith;
}

month_index_lem :
    (y i : ℕ) (m : ℤ)
    → 100 ≤ y
    → pos_part m + 12 * y ≡ i + neg_part m
    → month_index (full_year y) m ≡ i
unfolding ◌+ℤ◌
month_index_lem y i m late h = ground arith

-- From the year 100 on, the months of `new Date(y, m, 1)` count on beyond the year.
pub new_date-first :
    (y i : ℕ) (m : ℤ) → 100 ≤ y → pos_part m + 12 * y ≡ i + neg_part m → new_date y m 1 ≡ first_of i
unfolding new_date
new_date-first y i m late h = omega (arith, ap first_of (month_index_lem y i m late h))

-- The text of a month.
abbrev pub month_text : ℕ → Text
month_text i = show (i / 12) ++ b'-' ∷ two_digits (i % 12 + 1)

pub to_period-first_of : (i : ℕ) → to_period (first_of i) ≡ month_text i
unfolding to_period
to_period-first_of i =
    let (y, m, _) = get_unique (i / 12) (i % 12) 1 (first_of i) (first_of-IsDayOf i) in
    rw (y, m) refl

pub to_period-month_of : (t : Date) → to_period t ≡ month_text (month_of t)
unfolding to_period
to_period-month_of t =
    let is = get-IsDayOf t in
    let year : get_full_year t ≡ month_of t / 12 = omega (arith, is.month_in) in
    let month : get_month t ≡ month_of t % 12 = omega (arith, is.month_in) in
    ap₂ (λ y m. show y ++ b'-' ∷ two_digits (m + 1)) year month

year_and_month-month_text :
    (i : ℕ) → year_and_month (split b'-' (month_text i)) ≡ some (i / 12, i % 12 + 1)
unfolding year_and_month
year_and_month-month_text i =
    rw
      (
        split-digits b'-' refl (show (i / 12)) (two_digits (i % 12 + 1)) (show-IsDigits (i / 12)),
        split-digits_last b'-' refl _ (two_digits-IsDigits (i % 12 + 1)),
        number-show (i / 12),
        year_and_month,
        number-two_digits (i % 12 + 1),
      )
      refl

shift_period-month_text :
    (i j : ℕ) (months : ℤ)
    → 1200 ≤ i
    → i + pos_part months ≡ j + neg_part months
    → shift_period (month_text i) months ≡ some (month_text j)
unfolding shift_period
shift_period-month_text i j months late h =
    rw (year_and_month-month_text i, shift_period)
      (ap some (
        ap to_period (new_date-first (i / 12) j _ (omega arith) (omega int_laws))
        ∙ to_period-first_of j))

-- From the year 100 on, the period of a date moved by a number of months, back where negative, is the
-- period of each date that lies that many months after it. So moving it back again restores it.
pub shift_period-to_period :
    (s t : Date) (months : ℤ)
    → 100 ≤ get_full_year s
    → month_of s + pos_part months ≡ month_of t + neg_part months
    → shift_period (to_period s) months ≡ some (to_period t)
shift_period-to_period s t months late h =
    rw (to_period-month_of s, to_period-month_of t)
      (shift_period-month_text (month_of s) (month_of t) months (omega arith) h)

month_keys_lem :
    (base : Date) (n i : ℕ)
    → 100 ≤ get_full_year base
    → i < n
    → n ≤ month_of base
    → get_elem? (month_keys base n) i ≡ some (month_text (month_of base + i + 1 - n))
unfolding month_keys to_period
month_keys_lem base zero i late h k = elim h [ ]
month_keys_lem base (suc n) zero late h k = ap some (
    ap to_period (new_date-first (get_full_year base) (month_of base - n) _ late (omega int_laws))
    ∙ to_period-first_of (month_of base - n)
    ∙ ap month_text (omega arith))
month_keys_lem base (suc n) (suc i) late h k =
    month_keys_lem base n i late (omega arith) (omega arith)
    ∙ ap (λ j. some (month_text j)) (omega arith)

set_date_first : (t : Date) → IsDayOf (get_full_year t) (get_month t) 1 (set_date t (pos 1))
unfolding set_date ◌+ℤ◌ ◌-ℤ◌
set_date_first t =
    let is = get-IsDayOf t in
    record { month_in = is.month_in; day_in = omega (arith, is.day_in); place = ground arith }

-- From the year 100 on, the last `n` month keys, oldest first, hold the key of each date of one of the
-- `n` months that end with today's, `back` months before the last of them. The texts of the dates are
-- read by any `read`.
last_n_month_keys-month_key :
    (today : Date) (read : Text → Date) (s : Text) (n back : ℕ)
    → 100 ≤ get_full_year today
    → n ≤ month_of today
    → month_of (read s) + back ≡ month_of today
    → back < n
    → get_elem? (last_n_month_keys today n) (n - 1 - back) ≡ some (month_key read s)
unfolding last_n_month_keys month_key to_period
last_n_month_keys-month_key today read s n back late room e h =
    let (y, m, _) = get_unique _ _ 1 (set_date today (pos 1)) (set_date_first today) in
    month_keys_lem (set_date today (pos 1)) n (n - 1 - back) (omega arith) (omega arith)
      (omega arith)
    ∙ ap some (ap month_text (omega arith) ∙ sym (to_period-month_of (read s)))
