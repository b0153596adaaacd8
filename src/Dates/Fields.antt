-- ===== src/Dates/Fields.antt =====
-- The year, the month and the day of a date determine it, and each valid choice of them is a date.
use native.Mathlib.Decide.{le_ind}
use native.Mathlib.Nat.{le_refl}
use mathlib.Core.Path.{ap₂}
use mentorio.Prelude.{
  ℕ, zero, suc, ◌+◌, ◌*◌, ◌/◌, ◌%◌, ◌≤◌, ◌<◌, ◌≡◌, arith, leb, Bool-cases, inl, inr,
}
use mentorio.Prelude.Int.{pos, ◌+ℤ◌}
use mentorio.Dates.{
  Date, is_leap, days_in_month, days_before_month, year_start, month_start, year_down,
  get_full_year, month_down, get_month, get_date, new_date,
}

pub year_start-suc : (y : ℕ) → year_start (suc y) ≡ month_start y 12
unfolding year_start month_start days_before_month days_in_month is_leap
year_start-suc y = ground arith

pub month_start-zero : (y : ℕ) → month_start y 0 ≡ year_start y
unfolding month_start days_before_month
month_start-zero y = omega arith

pub month_start-suc : (y m : ℕ) → month_start y (suc m) ≡ month_start y m + days_in_month y m
unfolding month_start days_before_month
month_start-suc y m = omega arith

pub days_in_month_bounds : (y m : ℕ) → (28 ≤ days_in_month y m) × (days_in_month y m ≤ 31)
unfolding days_in_month
days_in_month_bounds y m = ground arith

year_start_bound : (y : ℕ) → 365 * y ≤ year_start y
unfolding year_start
year_start_bound y = omega arith

year_start-lt : (y : ℕ) → year_start y < year_start (suc y)
unfolding year_start
year_start-lt y = omega arith

year_start_mono : (y z : ℕ) → y ≤ z → year_start y ≤ year_start z
unfolding year_start
year_start_mono y z h = omega arith

month_start_mono : (y m n : ℕ) → m ≤ n → month_start y m ≤ month_start y n
month_start_mono y m n =
    le_ind (λ k. month_start y m ≤ month_start y k) (le_refl _)
      (λ k le ih. omega (arith, month_start-suc y k)) n

year_down_lem :
    (y : ℕ) (t : Date)
    → t < year_start (suc y)
    → (year_start (year_down y t) ≤ t) × (t < year_start (suc (year_down y t)))
unfolding year_down year_start
year_down_lem zero t h = (omega arith, h)
year_down_lem (suc y) t h = ground (arith, year_down_lem y t)

month_down_lem :
    (y m : ℕ) (t : Date)
    → year_start y ≤ t
    → t < month_start y (suc m)
    → (month_start y (month_down y m t) ≤ t)
      × (t < month_start y (suc (month_down y m t)))
      × (month_down y m t ≤ m)
unfolding month_down
month_down_lem y zero t lo h = omega (arith, month_start-zero y)
month_down_lem y (suc m) t lo h = ground (arith, month_down_lem y m t lo)

-- Day `d` of month `m` of year `y` exists and is the day `t`.
pub record IsDayOf (y m d : ℕ) (t : Date) : Type 0 where
  pub month_in : m ≤ 11
  pub day_in : (1 ≤ d) × (d ≤ days_in_month y m)
  pub place : month_start y m + d ≡ t + 1

year_in : (t : Date) → (year_start (get_full_year t) ≤ t) × (t < year_start (suc (get_full_year t)))
unfolding get_full_year
year_in t = year_down_lem (t / 365) t (omega (arith, year_start_bound (suc (t / 365))))

month_in_year :
    (t : Date)
    → (month_start (get_full_year t) (get_month t) ≤ t)
      × (t < month_start (get_full_year t) (suc (get_month t)))
      × (get_month t ≤ 11)
unfolding get_month
month_in_year t =
    month_down_lem (get_full_year t) 11 t (year_in t).0
      (omega (arith, year_in t, year_start-suc (get_full_year t)))

-- Every date is a day of its year and month.
pub get-IsDayOf : (t : Date) → IsDayOf (get_full_year t) (get_month t) (get_date t) t
unfolding get_date
get-IsDayOf t =
    let (lo, hi, m) = month_in_year t in
    let next = month_start-suc (get_full_year t) (get_month t) in
    record { month_in = m; day_in = (omega arith, omega (arith, next)); place = omega arith }

unique_year :
    (y z : ℕ) (t : Date)
    → year_start y ≤ t
    → t < year_start (suc y)
    → year_start z ≤ t
    → t < year_start (suc z)
    → y ≤ z
unfolding year_start
unique_year y z t a b c d = omega arith

unique_month : (y m n : ℕ) (t : Date) → month_start y m ≤ t → t < month_start y (suc n) → m ≤ n
unique_month y m n t a b = elim (Bool-cases (leb m n)) [
  | inl le ↦ ground arith
  | inr gt ↦ omega (arith, month_start_mono y (suc n) m (ground arith))
]

IsDayOf-year :
    (y m d : ℕ) (t : Date) → IsDayOf y m d t → (year_start y ≤ t) × (t < year_start (suc y))
IsDayOf-year y m d t is = omega (
  arith,
  is.place,
  is.day_in,
  is.month_in,
  month_start-suc y m,
  month_start_mono y 0 m (omega arith),
  month_start_mono y (suc m) 12 (omega (arith, is.month_in)),
  month_start-zero y,
  year_start-suc y,
)

get_full_year_unique : (y m d : ℕ) (t : Date) → IsDayOf y m d t → get_full_year t ≡ y
get_full_year_unique y m d t is =
    let (a, b) = IsDayOf-year y m d t is in
    let (c, e) = year_in t in
    omega
      (arith, unique_year y (get_full_year t) t a b c e, unique_year (get_full_year t) y t c e a b)

get_month_unique : (y m d : ℕ) (t : Date) → IsDayOf y m d t → get_month t ≡ m
get_month_unique y m d t is =
    let (lo, hi, _) = rw (get_full_year_unique y m d t is) at (month_in_year t) in
    let after : t < month_start y (suc m) =
      omega (arith, is.place, is.day_in, month_start-suc y m) in
    let from : month_start y m ≤ t = omega (arith, is.place, is.day_in) in
    omega
      (arith, unique_month y m (get_month t) t from hi, unique_month y (get_month t) m t lo after)

-- The year, the month and the day of a date are the only ones that it is the day of.
pub get_unique :
    (y m d : ℕ) (t : Date)
    → IsDayOf y m d t
    → (get_full_year t ≡ y) × (get_month t ≡ m) × (get_date t ≡ d)
unfolding get_date
get_unique y m d t is = (
  get_full_year_unique y m d t is,
  get_month_unique y m d t is,
  rw (get_full_year_unique y m d t is, get_month_unique y m d t is) (omega (arith, is.place)),
)

-- A valid choice of a year from 100 on, a month and a day is the date made of them.
pub new_date-IsDayOf :
    (y m d : ℕ)
    → 100 ≤ y
    → m ≤ 11
    → 1 ≤ d
    → d ≤ days_in_month y m
    → IsDayOf y m d (new_date y (pos m) d)
unfolding new_date ◌+ℤ◌
new_date-IsDayOf y m d late hm lo hi =
    let first : month_start ((12 * y + m) / 12) ((12 * y + m) % 12) ≡ month_start y m =
      ap₂ month_start (omega arith) (omega arith) in
    record { month_in = hm; day_in = (lo, hi); place = ground (arith, first) }
