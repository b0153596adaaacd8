-- ===== src/Api/LessonList.antt =====
-- frontend/lib/api/schedule.ts: the list of lessons, with the end that it gives to a window without
-- one.
pub mod Window
use mentorio.Prelude.{
  ℕ, ◌+◌, ◌≤◌, String, Option, none, some, List, [], ◌∷◌, ◌≡◌, refl, ◌∙◌, ap, ◌⊎◌, inl, inr, arith,
}
use mentorio.Prelude.Int.{ℤ, pos, ◌+ℤ◌}
use mentorio.Prelude.Text.{Text, codes}
use mentorio.Prelude.Dict.{HasKey, get}
use mentorio.Http.{Query, HttpRequest, Response}
use mentorio.Json.{Json}
use mentorio.Client.{Call}
use mentorio.Client.Pages.{fetch_all_pages}
use mentorio.Dates.{Date, get_full_year, get_date, set_date}
use mentorio.Dates.Iso.{parse_local_date, to_local_iso_date}
use mentorio.Dates.Iso.RoundTrip.{parse_local_date-to_local_iso_date}
use mentorio.Dates.Week.Columns.{set_date-day}
use mentorio.Api.{truthy_text, or_else, set_if, get-set_if, get-start, get-empty, or_else-none}

pub record ListLessonsParams : Type 0 where
  pub organization_id : Text
  pub group : Option Text
  pub status : Option Text
  pub date : Option Text
  pub date_from : Option Text
  pub date_to : Option Text

abbrev pub default_forward_window_days : ℕ
default_forward_window_days = 90

-- `d.setDate(d.getDate() + 90)` and `toLocalIsoDate(d)`, on an invalid date too.
unfoldable pub forward : Option Date → Text
forward none = codes "NaN-NaN-NaN"
forward (some d) = to_local_iso_date (set_date d (pos (get_date d + default_forward_window_days)))

-- The end of the window: the default where only its start is given.
unfoldable pub window_end : Option Text → Option Text → Option Text → Option Text
window_end (some (c ∷ s)) none none = some (forward (parse_local_date (c ∷ s)))
window_end date_from date date_to = date_to

unfoldable pub lessons_query : ListLessonsParams → Query
lessons_query params =
    let date_to =
      window_end (truthy_text params.date_from) (truthy_text params.date)
        (truthy_text params.date_to) in
    set_if "date_to" date_to (
      set_if "date_from" params.date_from (
        set_if "date" params.date (
          set_if "status" params.status
            (set_if "group" params.group (("organization", params.organization_id) ∷ [])))))

module _ {W : Type 0} (send : HttpRequest → W → Option Response × W) where
  unfoldable pub list_lessons : ListLessonsParams → Call W (List Json)
  list_lessons params =
      fetch_all_pages send (codes "/api/v1/schedule/lessons/") (lessons_query params)
