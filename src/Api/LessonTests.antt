-- ===== src/Api/LessonTests.antt =====
-- A list of lessons that starts at a date (frontend/lib/api/schedule.ts).
use mentorio.Dates.Iso.{to_local_iso_date}
use mentorio.Prelude.{◌≡◌, ◌+◌, ◌≤◌, none, some, refl, arith}
use mentorio.Prelude.Text.{codes}
use mentorio.Prelude.Dict.{get}
use mentorio.Dates.{Date, year_start, year_down, get_full_year}
use mentorio.Api.LessonList.{ListLessonsParams, lessons_query}
use mentorio.Api.LessonList.Window.{lessons_query-window}

-- January 31st, 2026.
abbrev start : Date
start = 740012

late : 100 ≤ get_full_year start
unfolding get_full_year year_down year_start
late = omega arith

abbrev from_start : ListLessonsParams
from_start = record {
  organization_id = codes "org-1";
  group = none;
  status = none;
  date = none;
  date_from = some (to_local_iso_date start);
  date_to = none;
}

lessons_query-window_example :
    (get "date_from" (lessons_query from_start) ≡ some (to_local_iso_date start))
    × (get "date" (lessons_query from_start) ≡ none)
    × (get "date_to" (lessons_query from_start) ≡ some (to_local_iso_date (start + 90)))
lessons_query-window_example = lessons_query-window from_start start late refl
