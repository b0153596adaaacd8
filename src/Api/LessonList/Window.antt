-- ===== src/Api/LessonList/Window.antt =====
-- The window that the list of lessons (frontend/lib/api/schedule.ts) asks for.
use mentorio.Prelude.{
  ℕ, ◌+◌, ◌≤◌, Option, none, some, [], ◌∷◌, ◌++◌, ◌≡◌, refl, ap, ◌∙◌, inl, inr, sym, Option-cases,
}
use mentorio.Prelude.Text.{Text}
use mentorio.Prelude.Number.{show}
use mentorio.Prelude.Dict.{get}
use mentorio.Dates.{Date, get_full_year, get_month, get_date}
use mentorio.Dates.Iso.{parse_local_date, to_local_iso_date, two_digits}
use mentorio.Dates.Iso.RoundTrip.{parse_local_date-to_local_iso_date}
use mentorio.Dates.Week.Columns.{set_date-day}
use mentorio.Api.{truthy_text, get-set_if, get-start, get-empty, or_else-none}
use mentorio.Api.LessonList.{ListLessonsParams, forward, window_end, lessons_query}

get-lessons_query :
    (p : ListLessonsParams)
    → (get "date_from" (lessons_query p) ≡ truthy_text p.date_from)
      × (get "date" (lessons_query p) ≡ truthy_text p.date)
      × (get "date_to" (lessons_query p)
          ≡ truthy_text
              (window_end (truthy_text p.date_from) (truthy_text p.date) (truthy_text p.date_to)))
unfolding lessons_query
get-lessons_query p = simp (get-set_if, get-start, get-empty, or_else-none) (refl, refl, refl)

some_text : (s rest : Text) (c : ℕ) → (d : ℕ) × (t : Text) × (s ++ c ∷ rest ≡ d ∷ t)
some_text [] rest c = (c, rest, refl)
some_text (d ∷ s) rest c = (d, s ++ c ∷ rest, refl)

truthy-iso : (t : Date) → truthy_text (some (to_local_iso_date t)) ≡ some (to_local_iso_date t)
unfolding to_local_iso_date
truthy-iso t =
    let (d, s, e) =
      some_text (show (get_full_year t))
        (two_digits (get_month t + 1) ++ b'-' ∷ two_digits (get_date t)) b'-' in
    rw e refl

truthy-forward : (d : Option Date) → truthy_text (some (forward d)) ≡ some (forward d)
unfolding forward
truthy-forward none = refl
truthy-forward (some d) = truthy-iso _

truthy_again : (o : Option Text) (v : Text) → truthy_text o ≡ some v → truthy_text (some v) ≡ some v
truthy_again none v e = cc
truthy_again (some []) v e = cc
truthy_again (some (c ∷ s)) v e = sym (rw e at (ap truthy_text e))

window_end-open :
    (v : Text)
    → truthy_text (some v) ≡ some v
    → window_end (some v) none none ≡ some (forward (parse_local_date v))
unfolding window_end
window_end-open [] e = cc
window_end-open (c ∷ s) e = refl

-- The end that a query has, from its single date and the end that is asked for; `default` is that of
-- a window with neither.
abbrev pub end_in_query : Option Text → Option Text → Text → Option Text
end_in_query date (some end) default = some end
end_in_query (some date) none default = none
end_in_query none none default = some default

window_end-given :
    (s : Text) (date : Option Text) (v : Text) → window_end (some s) date (some v) ≡ some v
unfolding window_end
window_end-given [] date v = refl
window_end-given (c ∷ s) none v = refl
window_end-given (c ∷ s) (some d) v = refl

window_end-single : (s d : Text) → window_end (some s) (some d) none ≡ none
unfolding window_end
window_end-single [] d = refl
window_end-single (c ∷ s) d = refl

forward-start :
    (t : Date)
    → 100 ≤ get_full_year t
    → forward (parse_local_date (to_local_iso_date t)) ≡ to_local_iso_date (t + 90)
unfolding forward
forward-start t late = rw (parse_local_date-to_local_iso_date t late, set_date-day t 90) refl

window_end-eq :
    (t : Date) (date to : Option Text)
    → 100 ≤ get_full_year t
    → truthy_text (window_end (some (to_local_iso_date t)) (truthy_text date) (truthy_text to))
      ≡ end_in_query (truthy_text date) (truthy_text to) (to_local_iso_date (t + 90))
window_end-eq t date to late = elim (Option-cases (truthy_text to)) [
  | inr (v, e) ↦
      rw (e, window_end-given (to_local_iso_date t) (truthy_text date) v) (truthy_again to v e)
  | inl no_end ↦ elim (Option-cases (truthy_text date)) [
    | inr (d, e) ↦ rw (no_end, e, window_end-single (to_local_iso_date t) d) refl
    | inl no_date ↦
        rw
          (
            no_end,
            no_date,
            window_end-open (to_local_iso_date t) (truthy-iso t),
            forward-start t late,
          )
          (truthy-iso (t + 90))
  ]
]

-- A query for lessons that starts on a date from the year 100 on holds that start, and the single
-- date if one is given. Its end is the one that is given; with none given, a query with a single
-- date has no end, and one without ends 90 days after its start. An empty text counts as none.
pub lessons_query-window :
    (p : ListLessonsParams) (t : Date)
    → 100 ≤ get_full_year t
    → p.date_from ≡ some (to_local_iso_date t)
    → (get "date_from" (lessons_query p) ≡ some (to_local_iso_date t))
      × (get "date" (lessons_query p) ≡ truthy_text p.date)
      × (get "date_to" (lessons_query p)
          ≡ end_in_query (truthy_text p.date) (truthy_text p.date_to) (to_local_iso_date (t + 90)))
lessons_query-window p t late from =
    let (starts, single, ends) = get-lessons_query p in
    let real : truthy_text p.date_from ≡ some (to_local_iso_date t) = rw from (truthy-iso t) in
    (starts ∙ real, single, ends ∙ rw real (window_end-eq t p.date p.date_to late))
