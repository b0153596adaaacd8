-- ===== src/Queries/Teachers.antt =====
-- frontend/lib/queries/teachers.ts: its hooks, as the options that they hand to TanStack Query.
use mentorio.Prelude.{ℕ, true, false, Option, none, List, [], ◌∷◌, ◌++◌, String}
use mentorio.Prelude.Text.{Text}
use mentorio.Http.{HttpRequest, Response}
use mentorio.Json.{Json, obj, str}
use mentorio.Client.Pages.{ResultPage}
use mentorio.Api.{given, defined}
use mentorio.Api.TeacherLists.{
  CreateTeacherInput, CreateTeacherSalaryInput, ListTeachersParams, UpdateTeacherInput,
  delete_teacher, get_teacher_salaries, get_teacher_specializations, list_teachers,
  list_teachers_page,
}
use mentorio.Api.Teachers.{create_teacher, create_teacher_salary, update_teacher}
use mentorio.Queries.{
  name, nullable_id, id_or_null, is_given, paged, QueryOptions, MutationOptions, invalidate,
  invalidated,
}

-- The options as a JavaScript object.
unfoldable pub list_teachers_params : ListTeachersParams → List (String × Option Json)
list_teachers_params params =
    ("organizationId", given str params.organization_id)
    ∷ ("status", given str params.status)
    ∷ ("search", given str params.search)
    ∷ []

module _ {W : Type 0} (send : HttpRequest → W → Option Response × W) where
  unfoldable pub use_teachers_query : ListTeachersParams → QueryOptions W (List Json)
  use_teachers_query params = record {
    query_key = name "teachers" ∷ obj (defined (list_teachers_params params)) ∷ [];
    query_fn = list_teachers send params;
    enabled = true;
    keep_previous = false;
    stale_time = none;
  }

  unfoldable pub use_teachers_page_query :
      ListTeachersParams → Option ℕ → Option ℕ → QueryOptions W ResultPage
  use_teachers_page_query params page page_size = record {
    query_key =
        name "teachers-page"
        ∷ obj (defined (list_teachers_params params ++ paged page page_size))
        ∷ [];
    query_fn = list_teachers_page send params page page_size;
    enabled = true;
    keep_previous = true;
    stale_time = none;
  }

  unfoldable pub use_teacher_specializations_query : Option Text → QueryOptions W (List Json)
  use_teacher_specializations_query teacher_profile_id = record {
    query_key = name "teacher-specializations" ∷ nullable_id teacher_profile_id ∷ [];
    query_fn = get_teacher_specializations send (id_or_null teacher_profile_id);
    enabled = is_given teacher_profile_id;
    keep_previous = false;
    stale_time = none;
  }

  unfoldable pub use_teacher_salaries_query : Option Text → QueryOptions W (List Json)
  use_teacher_salaries_query teacher_profile_id = record {
    query_key = name "teacher-salaries" ∷ nullable_id teacher_profile_id ∷ [];
    query_fn = get_teacher_salaries send (id_or_null teacher_profile_id);
    enabled = is_given teacher_profile_id;
    keep_previous = false;
    stale_time = none;
  }

  unfoldable pub use_create_teacher_mutation :
      Text → CreateTeacherInput → MutationOptions W (Option Json)
  use_create_teacher_mutation today input = record {
    mutation_fn = create_teacher send today input;
    on_success = λ _. invalidated ("teachers" ∷ "teachers-page" ∷ []);
  }

  unfoldable pub use_update_teacher_mutation :
      Text → UpdateTeacherInput → MutationOptions W (Option Json)
  use_update_teacher_mutation profile_id input = record {
    mutation_fn = update_teacher send profile_id input;
    on_success = λ _. invalidated ("teachers" ∷ "teachers-page" ∷ []);
  }

  unfoldable pub use_create_teacher_salary_mutation :
      CreateTeacherSalaryInput → MutationOptions W (Option Json)
  use_create_teacher_salary_mutation input = record {
    mutation_fn = create_teacher_salary send input;
    on_success = λ _. invalidate (name "teacher-salaries" ∷ str input.teacher_profile_id ∷ []) ∷ [];
  }

  unfoldable pub use_delete_teacher_mutation : Text → MutationOptions W (Unit {0})
  use_delete_teacher_mutation profile_id = record {
    mutation_fn = delete_teacher send profile_id;
    on_success = λ _. invalidated ("teachers" ∷ "teachers-page" ∷ []);
  }
