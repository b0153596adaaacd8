-- ===== src/Api/Homework.antt =====
-- frontend/lib/api/homework.ts: assignments and submissions.
use mentorio.Http.{form}
use mentorio.Client.{download_file}
use mentorio.Api.{send_body}
use mentorio.Prelude.{ℕ, String, Option, some, List, [], ◌∷◌}
use mentorio.Prelude.Text.{Text, codes}
use mentorio.Http.{Query, HttpRequest, Response}
use mentorio.Json.{Json, str, num, Decimal}
use mentorio.Client.{Call, ◌>>=◌, return, api_fetch}
use mentorio.Client.Pages.{ResultPage, fetch_page, fetch_all_pages}
use mentorio.Api.{
  set_if, or_null, text_or_null, or_default, arr_texts, whole_number, given, post, patch, delete,
  at, item,
}

pub record Attachment : Type 0 where
  pub id : Text
  pub original_name : Text
  pub mime_type : Text
  pub size_bytes : Decimal
  pub created_at : Text

pub record ListAssignmentsParams : Type 0 where
  pub organization_id : Option Text
  pub group : Option Text
  pub status : Option Text
  pub search : Option Text

unfoldable pub assignments_query : ListAssignmentsParams → Query
assignments_query params = set_if "search" params.search (
    set_if "status" params.status
      (set_if "group" params.group (set_if "organization" params.organization_id [])))

pub record AssignmentInput : Type 0 where
  pub organization_id : Text
  pub group : Text
  pub title : Text
  pub description : Option Text
  pub due_date : Text
  pub max_score : Option Decimal
  pub status : Option Text
  pub attachment_ids : Option (List Text)

unfoldable pub create_assignment_body : AssignmentInput → List (String × Option Json)
create_assignment_body input =
    ("organization", some (str input.organization_id))
    ∷ ("group", some (str input.group))
    ∷ ("title", some (str input.title))
    ∷ ("description", some (or_null input.description))
    ∷ ("due_date", some (str input.due_date))
    ∷ ("max_score", some (num (or_default (whole_number 100) input.max_score)))
    ∷ ("status", some (str (or_default (codes "active") input.status)))
    ∷ ("attachment_ids", some (arr_texts (or_default [] input.attachment_ids)))
    ∷ []

pub record AssignmentPatch : Type 0 where
  pub organization_id : Option Text
  pub group : Option Text
  pub title : Option Text
  pub description : Option Text
  pub due_date : Option Text
  pub max_score : Option Decimal
  pub status : Option Text
  pub attachment_ids : Option (List Text)

unfoldable pub update_assignment_body : AssignmentPatch → List (String × Option Json)
update_assignment_body input =
    ("title", given str input.title)
    ∷ ("description", given text_or_null input.description)
    ∷ ("due_date", given str input.due_date)
    ∷ ("max_score", given num input.max_score)
    ∷ ("status", given str input.status)
    ∷ ("attachment_ids", given arr_texts input.attachment_ids)
    ∷ []

pub record ListSubmissionsParams : Type 0 where
  pub organization_id : Option Text
  pub assignment : Option Text
  pub student_profile : Option Text

unfoldable pub submissions_query : ListSubmissionsParams → Query
submissions_query params =
    set_if "student_profile" params.student_profile
      (set_if "assignment" params.assignment (set_if "organization" params.organization_id []))

pub record SubmissionInput : Type 0 where
  pub organization_id : Text
  pub assignment : Text
  pub content : Option Text
  pub attachment_ids : Option (List Text)

unfoldable pub create_submission_body : SubmissionInput → List (String × Option Json)
create_submission_body input =
    ("organization", some (str input.organization_id))
    ∷ ("assignment", some (str input.assignment))
    ∷ ("content", some (or_null input.content))
    ∷ ("attachment_ids", some (arr_texts (or_default [] input.attachment_ids)))
    ∷ []

pub record GradeSubmissionInput : Type 0 where
  pub score : Decimal
  pub feedback : Option Text

unfoldable pub grade_submission_body : GradeSubmissionInput → List (String × Option Json)
grade_submission_body input =
    ("score", some (num input.score)) ∷ ("feedback", some (or_null input.feedback)) ∷ []

module _ {W : Type 0} (send : HttpRequest → W → Option Response × W) where
  unfoldable pub list_assignments : ListAssignmentsParams → Call W (List Json)
  list_assignments params =
      fetch_all_pages send (codes "/api/v1/homework/assignments/") (assignments_query params)

  unfoldable pub list_assignments_page :
      ListAssignmentsParams → Option ℕ → Option ℕ → Call W ResultPage
  list_assignments_page params page page_size =
      fetch_page send (codes "/api/v1/homework/assignments/") (assignments_query params)
        (or_default 1 page) (or_default 20 page_size)

  unfoldable pub create_assignment : AssignmentInput → Call W (Option Json)
  create_assignment input =
      api_fetch send (at "/api/v1/homework/assignments/") (post (create_assignment_body input))

  unfoldable pub update_assignment : Text → AssignmentPatch → Call W (Option Json)
  update_assignment id input =
      api_fetch send (item "/api/v1/homework/assignments/" id "/")
        (patch (update_assignment_body input))

  unfoldable pub delete_assignment : Text → Call W (Unit {0})
  delete_assignment id =
      api_fetch send (item "/api/v1/homework/assignments/" id "/") delete >>= λ _. return tt

  unfoldable pub list_submissions : ListSubmissionsParams → Call W (List Json)
  list_submissions params =
      fetch_all_pages send (codes "/api/v1/homework/submissions/") (submissions_query params)

  unfoldable pub create_submission : SubmissionInput → Call W (Option Json)
  create_submission input =
      api_fetch send (at "/api/v1/homework/submissions/") (post (create_submission_body input))

  unfoldable pub grade_submission : Text → GradeSubmissionInput → Call W (Option Json)
  grade_submission id input =
      api_fetch send (item "/api/v1/homework/submissions/" id "/")
        (patch (grade_submission_body input))

  -- The file is its name; the browser reads the rest.
  unfoldable pub upload_homework_attachment : Text → Call W (Option Json)
  upload_homework_attachment file =
      api_fetch send (at "/api/v1/homework/attachments/") (send_body "POST" (some (form file)))

  unfoldable pub download_homework_attachment : Attachment → Call W (Unit {0})
  download_homework_attachment attachment =
      download_file send (item "/api/v1/homework/attachments/" attachment.id "/download/")
        attachment.original_name
