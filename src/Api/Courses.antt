-- ===== src/Api/Courses.antt =====
-- frontend/lib/api/courses.ts: courses.
use mentorio.Prelude.{ℕ, String, Option, some, List, [], ◌∷◌}
use mentorio.Prelude.Text.{Text, codes}
use mentorio.Http.{Query, HttpRequest, Response}
use mentorio.Json.{Json, str, num, Decimal}
use mentorio.Client.{Call, ◌>>=◌, return, api_fetch}
use mentorio.Client.Pages.{ResultPage, fetch_page, fetch_all_pages}
use mentorio.Api.{set_if, or_default, given, post, patch, delete, at, item}

pub record ListCoursesParams : Type 0 where
  pub organization_id : Text
  pub status : Option Text
  pub level : Option Text
  pub search : Option Text

unfoldable pub courses_query : ListCoursesParams → Query
courses_query params = set_if "search" params.search (
    set_if "level" params.level
      (set_if "status" params.status (("organization", params.organization_id) ∷ [])))

unfoldable pub courses_page_query : ListCoursesParams → Query
courses_page_query params = set_if "search" params.search (
    set_if "level" params.level
      (set_if "status" params.status (("organization", params.organization_id) ∷ [])))

pub record CourseInput : Type 0 where
  pub organization_id : Text
  pub name : Text
  pub category : Text
  pub level : Text
  pub description : Text
  pub duration_weeks : Decimal
  pub price : Decimal
  pub status : Text
  pub color : Text

unfoldable pub create_course_body : CourseInput → List (String × Option Json)
create_course_body input =
    ("organization", some (str input.organization_id))
    ∷ ("name", some (str input.name))
    ∷ ("category", some (str input.category))
    ∷ ("level", some (str input.level))
    ∷ ("description", some (str input.description))
    ∷ ("duration_weeks", some (num input.duration_weeks))
    ∷ ("price", some (num input.price))
    ∷ ("status", some (str input.status))
    ∷ ("color", some (str input.color))
    ∷ []

pub record CoursePatch : Type 0 where
  pub organization_id : Option Text
  pub name : Option Text
  pub category : Option Text
  pub level : Option Text
  pub description : Option Text
  pub duration_weeks : Option Decimal
  pub price : Option Decimal
  pub status : Option Text
  pub color : Option Text

unfoldable pub update_course_body : CoursePatch → List (String × Option Json)
update_course_body input =
    ("name", given str input.name)
    ∷ ("category", given str input.category)
    ∷ ("level", given str input.level)
    ∷ ("description", given str input.description)
    ∷ ("duration_weeks", given num input.duration_weeks)
    ∷ ("price", given num input.price)
    ∷ ("status", given str input.status)
    ∷ ("color", given str input.color)
    ∷ []

module _ {W : Type 0} (send : HttpRequest → W → Option Response × W) where
  unfoldable pub list_courses : ListCoursesParams → Call W (List Json)
  list_courses params = fetch_all_pages send (codes "/api/v1/courses/") (courses_query params)

  unfoldable pub list_courses_page : ListCoursesParams → Option ℕ → Option ℕ → Call W ResultPage
  list_courses_page params page page_size =
      fetch_page send (codes "/api/v1/courses/") (courses_page_query params) (or_default 1 page)
        (or_default 20 page_size)

  unfoldable pub create_course : CourseInput → Call W (Option Json)
  create_course input = api_fetch send (at "/api/v1/courses/") (post (create_course_body input))

  unfoldable pub update_course : Text → CoursePatch → Call W (Option Json)
  update_course course_id input =
      api_fetch send (item "/api/v1/courses/" course_id "/") (patch (update_course_body input))

  unfoldable pub delete_course : Text → Call W (Unit {0})
  delete_course course_id =
      api_fetch send (item "/api/v1/courses/" course_id "/") delete >>= λ _. return tt
