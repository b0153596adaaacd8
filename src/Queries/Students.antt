-- ===== src/Queries/Students.antt =====
-- frontend/lib/queries/students.ts: its hooks, as the options that they hand to TanStack Query.
use mentorio.Prelude.{ℕ, true, false, Option, none, List, [], ◌∷◌, ◌++◌, String}
use mentorio.Prelude.Text.{Text}
use mentorio.Http.{HttpRequest, Response}
use mentorio.Json.{Json, obj, str}
use mentorio.Client.Pages.{ResultPage}
use mentorio.Api.{given, defined}
use mentorio.Api.StudentLists.{
  ListStudentsParams, delete_student, get_student_parents, list_students, list_students_page,
}
use mentorio.Api.Students.{CreateStudentInput, UpdateStudentInput, create_student, update_student}
use mentorio.Queries.{
  name, nullable_id, id_or_null, is_given, paged, QueryOptions, MutationOptions, invalidate,
  invalidated,
}

-- The options as a JavaScript object.
unfoldable pub list_students_params : ListStudentsParams → List (String × Option Json)
list_students_params params =
    ("organizationId", given str params.organization_id)
    ∷ ("status", given str params.status)
    ∷ ("search", given str params.search)
    ∷ []

module _ {W : Type 0} (send : HttpRequest → W → Option Response × W) where
  unfoldable pub use_students_query : ListStudentsParams → QueryOptions W (List Json)
  use_students_query params = record {
    query_key = name "students" ∷ obj (defined (list_students_params params)) ∷ [];
    query_fn = list_students send params;
    enabled = true;
    keep_previous = false;
    stale_time = none;
  }

  unfoldable pub use_students_page_query :
      ListStudentsParams → Option ℕ → Option ℕ → QueryOptions W ResultPage
  use_students_page_query params page page_size = record {
    query_key =
        name "students-page"
        ∷ obj (defined (list_students_params params ++ paged page page_size))
        ∷ [];
    query_fn = list_students_page send params page page_size;
    enabled = true;
    keep_previous = true;
    stale_time = none;
  }

  unfoldable pub use_student_parents_query : Option Text → QueryOptions W (List Json)
  use_student_parents_query student_profile_id = record {
    query_key = name "student-parents" ∷ nullable_id student_profile_id ∷ [];
    query_fn = get_student_parents send (id_or_null student_profile_id);
    enabled = is_given student_profile_id;
    keep_previous = false;
    stale_time = none;
  }

  unfoldable pub use_create_student_mutation : CreateStudentInput → MutationOptions W (Option Json)
  use_create_student_mutation input = record {
    mutation_fn = create_student send input;
    on_success = λ _. invalidated ("students" ∷ "students-page" ∷ []);
  }

  unfoldable pub use_update_student_mutation :
      Text → UpdateStudentInput → MutationOptions W (Option Json)
  use_update_student_mutation profile_id input = record {
    mutation_fn = update_student send profile_id input;
    on_success = λ _.
        invalidated ("students" ∷ "students-page" ∷ [])
        ++ invalidate (name "student-parents" ∷ str profile_id ∷ []) ∷ [];
  }

  unfoldable pub use_delete_student_mutation : Text → MutationOptions W (Unit {0})
  use_delete_student_mutation profile_id = record {
    mutation_fn = delete_student send profile_id;
    on_success = λ _. invalidated ("students" ∷ "students-page" ∷ []);
  }
