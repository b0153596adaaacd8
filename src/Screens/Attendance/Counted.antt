-- ===== src/Screens/Attendance/Counted.antt =====
-- The cards and the rates of the attendance page.
use mentorio.Prelude.{
  ℕ, suc, ◌+◌, ◌*◌, ◌/◌, ◌≤◌, Option, none, some, List, [], ◌∷◌, map, length, String, ◌≡◌, All,
  All-map, Pairs, arith, leb, leb→le, Bool-cases, inl, inr,
}
use native.Mathlib.Nat.{le_trans}
use mentorio.Screens.Attendance.{
  AttendanceStatus, present, absent, late, excused, early_leave, sick, AttendanceRecord, Sheet,
  Counts, StudentRate, status_for, count_status, no_counts, session_summary, present_count, rate_of,
  records_of, insert_rate, sort_rates, student_rate, student_rates,
}

abbrev pub total : Counts → ℕ
total c = c.present + c.absent + c.late + c.excused

-- The students that no card counts.
abbrev pub uncounted_or : ℕ → Option AttendanceStatus → ℕ
uncounted_or n none = suc n
uncounted_or n (some early_leave) = suc n
uncounted_or n (some sick) = suc n
uncounted_or n _ = n

abbrev pub uncounted : Sheet → List String → ℕ
uncounted s [] = 0
uncounted s (m ∷ members) = uncounted_or (uncounted s members) (status_for m s)

total-count_status :
    (status : Option AttendanceStatus) (c : Counts) (n : ℕ)
    → total (count_status status c) + uncounted_or n status ≡ suc (total c + n)
unfolding count_status
total-count_status none c n = omega arith
total-count_status (some present) c n = omega arith
total-count_status (some absent) c n = omega arith
total-count_status (some late) c n = omega arith
total-count_status (some excused) c n = omega arith
total-count_status (some early_leave) c n = omega arith
total-count_status (some sick) c n = omega arith

total-session_summary_from :
    (s : Sheet) (members : List String) (c : Counts)
    → total (session_summary s members c) + uncounted s members ≡ total c + length members
unfolding session_summary
total-session_summary_from s [] c = omega arith
total-session_summary_from s (m ∷ members) c =
    let status = status_for m s in
    omega (
      arith,
      total-session_summary_from s members (count_status status c),
      total-count_status status c (uncounted s members),
    )

-- The four cards count every active student once, but for those with nothing recorded on a day that
-- cannot be edited and those recorded as sick or as leaving early, whom no card counts.
pub total-session_summary :
    (s : Sheet) (members : List String)
    → total (session_summary s members no_counts) + uncounted s members ≡ length members
total-session_summary s members = omega (arith, total-session_summary_from s members no_counts)

present_count-le : (rs : List AttendanceRecord) → present_count rs ≤ length rs
unfolding present_count
present_count-le [] = omega arith
present_count-le (r ∷ rs) = ground (arith, present_count-le rs)

rate_of-le : (rs : List AttendanceRecord) → rate_of rs ≤ 100
unfolding rate_of
rate_of-le [] = omega arith
rate_of-le (r ∷ rs) = rounded_le (present_count (r ∷ rs)) (length rs) (present_count-le (r ∷ rs))
  where
    rounded_le : (p n : ℕ) → p ≤ suc n → (p * 200 + suc n) / (suc n * 2) ≤ 100
    rounded_le p n h = grind arith

abbrev pub InOrder : StudentRate → StudentRate → Type 0
InOrder a b = a.rate ≤ b.rate

insert_rate-All :
    (P : StudentRate → Type 0) (a : StudentRate) (bs : List StudentRate)
    → P a
    → All P bs
    → All P (insert_rate a bs)
unfolding insert_rate
insert_rate-All P a [] p h = (p, tt)
insert_rate-All P a (b ∷ bs) p (q, h) = elim (Bool-cases (leb a.rate b.rate)) [
  | inl first ↦ rw first (p, (q, h))
  | inr behind ↦ rw behind (q, insert_rate-All P a bs p h)
]

insert_rate-Pairs :
    (a : StudentRate) (bs : List StudentRate) → Pairs InOrder bs → Pairs InOrder (insert_rate a bs)
unfolding insert_rate
insert_rate-Pairs a [] h = (tt, tt)
insert_rate-Pairs a (b ∷ bs) (q, h) = elim (Bool-cases (leb a.rate b.rate)) [
  | inl first ↦
      let below = leb→le _ _ first in
      rw first ((below, All-map _ _ (λ c k. le_trans below k) bs q), (q, h))
  | inr behind ↦
      rw behind (insert_rate-All (InOrder b) a bs (ground arith) q, insert_rate-Pairs a bs h)
]

sort_rates-Pairs : (list : List StudentRate) → Pairs InOrder (sort_rates list)
unfolding sort_rates
sort_rates-Pairs [] = tt
sort_rates-Pairs (a ∷ list) = insert_rate-Pairs a (sort_rates list) (sort_rates-Pairs list)

sort_rates-All :
    (P : StudentRate → Type 0) (list : List StudentRate) → All P list → All P (sort_rates list)
unfolding sort_rates
sort_rates-All P [] h = tt
sort_rates-All P (a ∷ list) (p, h) =
    insert_rate-All P a (sort_rates list) p (sort_rates-All P list h)

rates_small :
    (group_records : List AttendanceRecord) (members : List String)
    → All (λ a. a.rate ≤ 100) (map (student_rate group_records) members)
rates_small group_records [] = tt
rates_small group_records (m ∷ members) =
    (rate_of-le (records_of m group_records), rates_small group_records members)

-- Every attendance rate that is shown is a percentage of at most 100, and the students stand in the
-- order of their rates, the lowest first.
pub student_rates-InOrder :
    (group_records : List AttendanceRecord) (members : List String)
    → All (λ a. a.rate ≤ 100) (student_rates group_records members)
      × Pairs InOrder (student_rates group_records members)
unfolding student_rates
student_rates-InOrder group_records members =
    let rates = map (student_rate group_records) members in
    (
      sort_rates-All (λ a. a.rate ≤ 100) rates (rates_small group_records members),
      sort_rates-Pairs rates,
    )
