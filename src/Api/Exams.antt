-- ===== src/Api/Exams.antt =====
-- frontend/lib/api/exams.ts: exams and their results.
use mentorio.Prelude.{ℕ, String, Option, some, List, [], ◌∷◌}
use mentorio.Prelude.Text.{Text, codes}
use mentorio.Http.{Query, HttpRequest, Response}
use mentorio.Json.{Json, str, num, Decimal}
use mentorio.Client.{Call, ◌>>=◌, return, api_fetch}
use mentorio.Client.Pages.{ResultPage, fetch_page, fetch_all_pages}
use mentorio.Api.{
  set_if, or_null, text_or_null, or_default, whole_number, given, post, patch, delete, at, item,
}

pub record ListExamsParams : Type 0 where
  pub organization_id : Option Text
  pub group : Option Text
  pub status : Option Text
  pub date_from : Option Text
  pub date_to : Option Text
  pub search : Option Text

unfoldable pub exams_query : ListExamsParams → Query
exams_query params = set_if "search" params.search (
    set_if "date_to" params.date_to (
      set_if "date_from" params.date_from (
        set_if "status" params.status
          (set_if "group" params.group (set_if "organization" params.organization_id [])))))

pub record ExamInput : Type 0 where
  pub organization_id : Text
  pub group : Text
  pub title : Text
  pub date : Text
  pub start_time : Text
  pub duration_minutes : Option Decimal
  pub room : Option Text
  pub max_score : Option Decimal
  pub question_count : Option Decimal
  pub status : Option Text

unfoldable pub create_exam_body : ExamInput → List (String × Option Json)
create_exam_body input =
    ("organization", some (str input.organization_id))
    ∷ ("group", some (str input.group))
    ∷ ("title", some (str input.title))
    ∷ ("date", some (str input.date))
    ∷ ("start_time", some (str input.start_time))
    ∷ ("duration_minutes", some (num (or_default (whole_number 90) input.duration_minutes)))
    ∷ ("room", some (or_null input.room))
    ∷ ("max_score", some (num (or_default (whole_number 100) input.max_score)))
    ∷ ("question_count", some (num (or_default (whole_number 0) input.question_count)))
    ∷ ("status", some (str (or_default (codes "scheduled") input.status)))
    ∷ []

pub record ExamPatch : Type 0 where
  pub organization_id : Option Text
  pub group : Option Text
  pub title : Option Text
  pub date : Option Text
  pub start_time : Option Text
  pub duration_minutes : Option Decimal
  pub room : Option Text
  pub max_score : Option Decimal
  pub question_count : Option Decimal
  pub status : Option Text

unfoldable pub update_exam_body : ExamPatch → List (String × Option Json)
update_exam_body input =
    ("group", given str input.group)
    ∷ ("title", given str input.title)
    ∷ ("date", given str input.date)
    ∷ ("start_time", given str input.start_time)
    ∷ ("duration_minutes", given num input.duration_minutes)
    ∷ ("room", given text_or_null input.room)
    ∷ ("max_score", given num input.max_score)
    ∷ ("question_count", given num input.question_count)
    ∷ ("status", given str input.status)
    ∷ []

pub record ListExamResultsParams : Type 0 where
  pub organization_id : Option Text
  pub exam : Option Text
  pub student_profile : Option Text

unfoldable pub exam_results_query : ListExamResultsParams → Query
exam_results_query params =
    set_if "student_profile" params.student_profile
      (set_if "exam" params.exam (set_if "organization" params.organization_id []))

pub record CreateExamResultInput : Type 0 where
  pub organization_id : Text
  pub exam : Text
  pub student_profile : Text
  pub score : Decimal

unfoldable pub create_exam_result_body : CreateExamResultInput → List (String × Option Json)
create_exam_result_body input =
    ("organization", some (str input.organization_id))
    ∷ ("exam", some (str input.exam))
    ∷ ("student_profile", some (str input.student_profile))
    ∷ ("score", some (num input.score))
    ∷ []

unfoldable pub update_exam_result_body : Decimal → List (String × Option Json)
update_exam_result_body score = ("score", some (num score)) ∷ []

module _ {W : Type 0} (send : HttpRequest → W → Option Response × W) where
  unfoldable pub list_exams : ListExamsParams → Call W (List Json)
  list_exams params = fetch_all_pages send (codes "/api/v1/exams/") (exams_query params)

  unfoldable pub list_exams_page : ListExamsParams → Option ℕ → Option ℕ → Call W ResultPage
  list_exams_page params page page_size =
      fetch_page send (codes "/api/v1/exams/") (exams_query params) (or_default 1 page)
        (or_default 20 page_size)

  unfoldable pub create_exam : ExamInput → Call W (Option Json)
  create_exam input = api_fetch send (at "/api/v1/exams/") (post (create_exam_body input))

  unfoldable pub delete_exam : Text → Call W (Unit {0})
  delete_exam id = api_fetch send (item "/api/v1/exams/" id "/") delete >>= λ _. return tt

  unfoldable pub update_exam : Text → ExamPatch → Call W (Option Json)
  update_exam id input =
      api_fetch send (item "/api/v1/exams/" id "/") (patch (update_exam_body input))

  unfoldable pub list_exam_results : ListExamResultsParams → Call W (List Json)
  list_exam_results params =
      fetch_all_pages send (codes "/api/v1/exams/results/") (exam_results_query params)

  unfoldable pub create_exam_result : CreateExamResultInput → Call W (Option Json)
  create_exam_result input =
      api_fetch send (at "/api/v1/exams/results/") (post (create_exam_result_body input))

  unfoldable pub update_exam_result : Text → Decimal → Call W (Option Json)
  update_exam_result id score =
      api_fetch send (item "/api/v1/exams/results/" id "/") (patch (update_exam_result_body score))
