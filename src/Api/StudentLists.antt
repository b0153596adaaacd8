-- ===== src/Api/StudentLists.antt =====
-- frontend/lib/api/students.ts: students, read and deleted.
use mentorio.Prelude.{ℕ, Option, List, [], ◌∷◌}
use mentorio.Prelude.Text.{Text, codes}
use mentorio.Http.{Query, HttpRequest, Response}
use mentorio.Json.{Json}
use mentorio.Client.{Call, ◌>>=◌, return, api_fetch}
use mentorio.Client.Pages.{ResultPage, fetch_page, fetch_all_pages}
use mentorio.Api.{set_if, or_default, delete, item}

pub record ListStudentsParams : Type 0 where
  pub organization_id : Option Text
  pub status : Option Text
  pub search : Option Text

unfoldable pub students_query : ListStudentsParams → Query
students_query params =
    set_if "search" params.search
      (set_if "status" params.status (set_if "organization" params.organization_id []))

unfoldable pub students_page_query : ListStudentsParams → Query
students_page_query params =
    set_if "search" params.search
      (set_if "status" params.status (set_if "organization" params.organization_id []))

unfoldable pub student_parents_query : Text → Query
student_parents_query student_profile_id = ("student_profile", student_profile_id) ∷ []

module _ {W : Type 0} (send : HttpRequest → W → Option Response × W) where
  unfoldable pub list_students : ListStudentsParams → Call W (List Json)
  list_students params = fetch_all_pages send (codes "/api/v1/students/") (students_query params)

  unfoldable pub list_students_page : ListStudentsParams → Option ℕ → Option ℕ → Call W ResultPage
  list_students_page params page page_size =
      fetch_page send (codes "/api/v1/students/") (students_page_query params) (or_default 1 page)
        (or_default 20 page_size)

  unfoldable pub get_student_parents : Text → Call W (List Json)
  get_student_parents student_profile_id =
      fetch_all_pages send (codes "/api/v1/students/parents/")
        (student_parents_query student_profile_id)

  unfoldable pub delete_student : Text → Call W (Unit {0})
  delete_student profile_id =
      api_fetch send (item "/api/v1/students/" profile_id "/") delete >>= λ _. return tt
