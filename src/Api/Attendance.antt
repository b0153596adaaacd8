-- ===== src/Api/Attendance.antt =====
-- frontend/lib/api/attendance.ts: attendance.
use mentorio.Prelude.{ℕ, String, Option, some, List, [], ◌∷◌}
use mentorio.Prelude.Text.{Text, codes}
use mentorio.Http.{Query, HttpRequest, Response}
use mentorio.Json.{Json, str}
use mentorio.Client.{Call, ◌>>=◌, return, api_fetch}
use mentorio.Client.Pages.{ResultPage, fetch_page, fetch_all_pages}
use mentorio.Api.{set_if, or_null, text_or_null, or_default, given, post, patch, delete, at, item}

pub record ListAttendanceParams : Type 0 where
  pub organization_id : Text
  pub group : Option Text
  pub student_profile : Option Text
  pub date : Option Text
  pub date_from : Option Text
  pub date_to : Option Text
  pub status : Option Text
  pub search : Option Text

unfoldable pub attendance_query : ListAttendanceParams → Query
attendance_query params = set_if "search" params.search (
    set_if "status" params.status (
      set_if "date_to" params.date_to (
        set_if "date_from" params.date_from (
          set_if "date" params.date (
            set_if "student_profile" params.student_profile
              (set_if "group" params.group (("organization", params.organization_id) ∷ [])))))))

pub record MarkAttendanceInput : Type 0 where
  pub organization_id : Text
  pub group : Text
  pub student_profile : Text
  pub date : Text
  pub status : Text
  pub notes : Option Text

unfoldable pub create_attendance_body : MarkAttendanceInput → List (String × Option Json)
create_attendance_body input =
    ("organization", some (str input.organization_id))
    ∷ ("group", some (str input.group))
    ∷ ("student_profile", some (str input.student_profile))
    ∷ ("date", some (str input.date))
    ∷ ("status", some (str input.status))
    ∷ ("notes", some (or_null input.notes))
    ∷ []

pub record MarkAttendancePatch : Type 0 where
  pub status : Option Text
  pub notes : Option Text

unfoldable pub update_attendance_body : MarkAttendancePatch → List (String × Option Json)
update_attendance_body input =
    ("status", given str input.status) ∷ ("notes", given text_or_null input.notes) ∷ []

module _ {W : Type 0} (send : HttpRequest → W → Option Response × W) where
  unfoldable pub list_attendance : ListAttendanceParams → Call W (List Json)
  list_attendance params =
      fetch_all_pages send (codes "/api/v1/attendance/") (attendance_query params)

  unfoldable pub list_attendance_page :
      ListAttendanceParams → Option ℕ → Option ℕ → Call W ResultPage
  list_attendance_page params page page_size =
      fetch_page send (codes "/api/v1/attendance/") (attendance_query params) (or_default 1 page)
        (or_default 20 page_size)

  unfoldable pub create_attendance : MarkAttendanceInput → Call W (Option Json)
  create_attendance input =
      api_fetch send (at "/api/v1/attendance/") (post (create_attendance_body input))

  unfoldable pub update_attendance : Text → MarkAttendancePatch → Call W (Option Json)
  update_attendance attendance_id input =
      api_fetch send (item "/api/v1/attendance/" attendance_id "/")
        (patch (update_attendance_body input))

  unfoldable pub delete_attendance : Text → Call W (Unit {0})
  delete_attendance attendance_id =
      api_fetch send (item "/api/v1/attendance/" attendance_id "/") delete >>= λ _. return tt
