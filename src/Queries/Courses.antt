-- ===== src/Queries/Courses.antt =====
-- frontend/lib/queries/courses.ts: its hooks, as the options that they hand to TanStack Query.
use mentorio.Prelude.{ℕ, true, false, Option, none, some, List, [], ◌∷◌, ◌++◌, String}
use mentorio.Prelude.Text.{Text}
use mentorio.Http.{HttpRequest, Response}
use mentorio.Json.{Json, obj, str}
use mentorio.Client.Pages.{ResultPage}
use mentorio.Api.{given, defined}
use mentorio.Api.Courses.{
  CourseInput, CoursePatch, ListCoursesParams, create_course, delete_course, list_courses,
  list_courses_page, update_course,
}
use mentorio.Queries.{name, paged, QueryOptions, MutationOptions, invalidated}

-- The options as a JavaScript object.
unfoldable pub list_courses_params : ListCoursesParams → List (String × Option Json)
list_courses_params params =
    ("organizationId", some (str params.organization_id))
    ∷ ("status", given str params.status)
    ∷ ("level", given str params.level)
    ∷ ("search", given str params.search)
    ∷ []

module _ {W : Type 0} (send : HttpRequest → W → Option Response × W) where
  unfoldable pub use_courses_query : ListCoursesParams → QueryOptions W (List Json)
  use_courses_query params = record {
    query_key = name "courses" ∷ obj (defined (list_courses_params params)) ∷ [];
    query_fn = list_courses send params;
    enabled = true;
    keep_previous = false;
    stale_time = none;
  }

  unfoldable pub use_courses_page_query :
      ListCoursesParams → Option ℕ → Option ℕ → QueryOptions W ResultPage
  use_courses_page_query params page page_size = record {
    query_key =
        name "courses-page"
        ∷ obj (defined (list_courses_params params ++ paged page page_size))
        ∷ [];
    query_fn = list_courses_page send params page page_size;
    enabled = true;
    keep_previous = true;
    stale_time = none;
  }

  unfoldable pub use_create_course_mutation : CourseInput → MutationOptions W (Option Json)
  use_create_course_mutation input = record {
    mutation_fn = create_course send input;
    on_success = λ _. invalidated ("courses" ∷ "courses-page" ∷ []);
  }

  unfoldable pub use_update_course_mutation : Text → CoursePatch → MutationOptions W (Option Json)
  use_update_course_mutation course_id input = record {
    mutation_fn = update_course send course_id input;
    on_success = λ _. invalidated ("courses" ∷ "courses-page" ∷ []);
  }

  unfoldable pub use_delete_course_mutation : Text → MutationOptions W (Unit {0})
  use_delete_course_mutation course_id = record {
    mutation_fn = delete_course send course_id;
    on_success = λ _. invalidated ("courses" ∷ "courses-page" ∷ []);
  }
