-- ===== src/Queries/Homework.antt =====
-- frontend/lib/queries/homework.ts: its hooks, as the options that they hand to TanStack Query.
use mentorio.Prelude.{ℕ, true, false, Option, none, List, [], ◌∷◌, ◌++◌, String}
use mentorio.Prelude.Text.{Text}
use mentorio.Http.{HttpRequest, Response}
use mentorio.Json.{Json, obj, str}
use mentorio.Client.Pages.{ResultPage}
use mentorio.Api.{given, defined}
use mentorio.Api.Homework.{
  AssignmentInput, AssignmentPatch, GradeSubmissionInput, ListAssignmentsParams,
  ListSubmissionsParams, SubmissionInput, create_assignment, create_submission, delete_assignment,
  grade_submission, list_assignments, list_assignments_page, list_submissions, update_assignment,
}
use mentorio.Queries.{name, paged, QueryOptions, MutationOptions, invalidated}

-- The options as a JavaScript object.
unfoldable pub list_assignments_params : ListAssignmentsParams → List (String × Option Json)
list_assignments_params params =
    ("organizationId", given str params.organization_id)
    ∷ ("group", given str params.group)
    ∷ ("status", given str params.status)
    ∷ ("search", given str params.search)
    ∷ []

-- The options as a JavaScript object.
unfoldable pub list_submissions_params : ListSubmissionsParams → List (String × Option Json)
list_submissions_params params =
    ("organizationId", given str params.organization_id)
    ∷ ("assignment", given str params.assignment)
    ∷ ("studentProfile", given str params.student_profile)
    ∷ []

module _ {W : Type 0} (send : HttpRequest → W → Option Response × W) where
  unfoldable pub use_assignments_query : ListAssignmentsParams → QueryOptions W (List Json)
  use_assignments_query params = record {
    query_key = name "assignments" ∷ obj (defined (list_assignments_params params)) ∷ [];
    query_fn = list_assignments send params;
    enabled = true;
    keep_previous = false;
    stale_time = none;
  }

  unfoldable pub use_assignments_page_query :
      ListAssignmentsParams → Option ℕ → Option ℕ → QueryOptions W ResultPage
  use_assignments_page_query params page page_size = record {
    query_key =
        name "assignments-page"
        ∷ obj (defined (list_assignments_params params ++ paged page page_size))
        ∷ [];
    query_fn = list_assignments_page send params page page_size;
    enabled = true;
    keep_previous = true;
    stale_time = none;
  }

  unfoldable pub use_submissions_query : ListSubmissionsParams → QueryOptions W (List Json)
  use_submissions_query params = record {
    query_key = name "submissions" ∷ obj (defined (list_submissions_params params)) ∷ [];
    query_fn = list_submissions send params;
    enabled = true;
    keep_previous = false;
    stale_time = none;
  }

  unfoldable pub use_create_assignment_mutation : AssignmentInput → MutationOptions W (Option Json)
  use_create_assignment_mutation input = record {
    mutation_fn = create_assignment send input;
    on_success = λ _. invalidated ("assignments" ∷ "assignments-page" ∷ []);
  }

  unfoldable pub use_update_assignment_mutation :
      Text → AssignmentPatch → MutationOptions W (Option Json)
  use_update_assignment_mutation id input = record {
    mutation_fn = update_assignment send id input;
    on_success = λ _. invalidated ("assignments" ∷ "assignments-page" ∷ []);
  }

  unfoldable pub use_delete_assignment_mutation : Text → MutationOptions W (Unit {0})
  use_delete_assignment_mutation id = record {
    mutation_fn = delete_assignment send id;
    on_success = λ _. invalidated ("assignments" ∷ "assignments-page" ∷ []);
  }

  unfoldable pub use_create_submission_mutation : SubmissionInput → MutationOptions W (Option Json)
  use_create_submission_mutation input = record {
    mutation_fn = create_submission send input;
    on_success = λ _. invalidated ("submissions" ∷ "assignments" ∷ "assignments-page" ∷ []);
  }

  unfoldable pub use_grade_submission_mutation :
      Text → GradeSubmissionInput → MutationOptions W (Option Json)
  use_grade_submission_mutation id input = record {
    mutation_fn = grade_submission send id input;
    on_success = λ _. invalidated ("submissions" ∷ "assignments" ∷ "assignments-page" ∷ []);
  }
