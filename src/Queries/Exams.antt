-- ===== src/Queries/Exams.antt =====
-- frontend/lib/queries/exams.ts: its hooks, as the options that they hand to TanStack Query.
use mentorio.Prelude.{ℕ, true, false, Option, none, some, List, [], ◌∷◌, ◌++◌, String}
use mentorio.Prelude.Text.{Text}
use mentorio.Json.{Decimal}
use mentorio.Api.Exams.{update_exam_result, create_exam_result}
use mentorio.Http.{HttpRequest, Response}
use mentorio.Json.{Json, obj, str}
use mentorio.Client.{Call}
use mentorio.Client.Pages.{ResultPage}
use mentorio.Api.{given, defined}
use mentorio.Api.Exams.{
  ExamInput, ExamPatch, ListExamResultsParams, ListExamsParams, create_exam, delete_exam,
  list_exam_results, list_exams, list_exams_page, update_exam,
}
use mentorio.Queries.{name, paged, QueryOptions, MutationOptions, invalidated}

-- The options as a JavaScript object.
unfoldable pub list_exams_params : ListExamsParams → List (String × Option Json)
list_exams_params params =
    ("organizationId", given str params.organization_id)
    ∷ ("group", given str params.group)
    ∷ ("status", given str params.status)
    ∷ ("dateFrom", given str params.date_from)
    ∷ ("dateTo", given str params.date_to)
    ∷ ("search", given str params.search)
    ∷ []

-- The options as a JavaScript object.
unfoldable pub list_exam_results_params : ListExamResultsParams → List (String × Option Json)
list_exam_results_params params =
    ("organizationId", given str params.organization_id)
    ∷ ("exam", given str params.exam)
    ∷ ("studentProfile", given str params.student_profile)
    ∷ []

module _ {W : Type 0} (send : HttpRequest → W → Option Response × W) where
  unfoldable pub save_exam_result :
      Text → Text → Text → Option Text → Decimal → Call W (Option Json)
  save_exam_result organization_id exam_id student_profile_id (some (c ∷ id)) score =
      update_exam_result send (c ∷ id) score
  save_exam_result organization_id exam_id student_profile_id _ score =
      create_exam_result send (record {
        organization_id = organization_id;
        exam = exam_id;
        student_profile = student_profile_id;
        score = score;
      })

  unfoldable pub use_exams_query : ListExamsParams → QueryOptions W (List Json)
  use_exams_query params = record {
    query_key = name "exams" ∷ obj (defined (list_exams_params params)) ∷ [];
    query_fn = list_exams send params;
    enabled = true;
    keep_previous = false;
    stale_time = none;
  }

  unfoldable pub use_exams_page_query :
      ListExamsParams → Option ℕ → Option ℕ → QueryOptions W ResultPage
  use_exams_page_query params page page_size = record {
    query_key =
        name "exams-page" ∷ obj (defined (list_exams_params params ++ paged page page_size)) ∷ [];
    query_fn = list_exams_page send params page page_size;
    enabled = true;
    keep_previous = true;
    stale_time = none;
  }

  unfoldable pub use_exam_results_query : ListExamResultsParams → QueryOptions W (List Json)
  use_exam_results_query params = record {
    query_key = name "examResults" ∷ obj (defined (list_exam_results_params params)) ∷ [];
    query_fn = list_exam_results send params;
    enabled = true;
    keep_previous = false;
    stale_time = none;
  }

  unfoldable pub use_create_exam_mutation : ExamInput → MutationOptions W (Option Json)
  use_create_exam_mutation input = record {
    mutation_fn = create_exam send input;
    on_success = λ _. invalidated ("exams" ∷ "exams-page" ∷ []);
  }

  unfoldable pub use_update_exam_mutation : Text → ExamPatch → MutationOptions W (Option Json)
  use_update_exam_mutation id input = record {
    mutation_fn = update_exam send id input;
    on_success = λ _. invalidated ("exams" ∷ "exams-page" ∷ []);
  }

  unfoldable pub use_delete_exam_mutation : Text → MutationOptions W (Unit {0})
  use_delete_exam_mutation id = record {
    mutation_fn = delete_exam send id;
    on_success = λ _. invalidated ("exams" ∷ "exams-page" ∷ []);
  }

  -- A result that is there already is changed; otherwise one is created.
  unfoldable pub use_save_exam_result_mutation :
      Text → Text → Text → Option Text → Decimal → MutationOptions W (Option Json)
  use_save_exam_result_mutation organization_id exam_id student_profile_id existing_result_id
        score =
      record {
        mutation_fn =
            save_exam_result organization_id exam_id student_profile_id existing_result_id score;
        on_success = λ _. invalidated ("examResults" ∷ []);
      }
