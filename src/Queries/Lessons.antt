-- ===== src/Queries/Lessons.antt =====
-- frontend/lib/queries/schedule.ts: its hooks, as the options that they hand to TanStack Query.
use mentorio.Prelude.{false, Option, none, some, List, [], ◌∷◌, String}
use mentorio.Prelude.Text.{Text}
use mentorio.Http.{HttpRequest, Response}
use mentorio.Json.{Json, obj, str}
use mentorio.Api.{given, defined}
use mentorio.Api.LessonList.{ListLessonsParams, list_lessons}
use mentorio.Api.Lessons.{LessonInput, LessonPatch, create_lesson, delete_lesson, update_lesson}
use mentorio.Queries.{name, is_text, QueryOptions, MutationOptions, invalidated}

-- The options as a JavaScript object.
unfoldable pub list_lessons_params : ListLessonsParams → List (String × Option Json)
list_lessons_params params =
    ("organizationId", some (str params.organization_id))
    ∷ ("group", given str params.group)
    ∷ ("status", given str params.status)
    ∷ ("date", given str params.date)
    ∷ ("dateFrom", given str params.date_from)
    ∷ ("dateTo", given str params.date_to)
    ∷ []

module _ {W : Type 0} (send : HttpRequest → W → Option Response × W) where
  unfoldable pub use_lessons_query : ListLessonsParams → QueryOptions W (List Json)
  use_lessons_query params = record {
    query_key = name "lessons" ∷ obj (defined (list_lessons_params params)) ∷ [];
    query_fn = list_lessons send params;
    enabled = is_text params.organization_id;
    keep_previous = false;
    stale_time = none;
  }

  unfoldable pub use_create_lesson_mutation : LessonInput → MutationOptions W (Option Json)
  use_create_lesson_mutation input = record {
    mutation_fn = create_lesson send input;
    on_success = λ _. invalidated ("lessons" ∷ []);
  }

  unfoldable pub use_update_lesson_mutation : Text → LessonPatch → MutationOptions W (Option Json)
  use_update_lesson_mutation id input = record {
    mutation_fn = update_lesson send id input;
    on_success = λ _. invalidated ("lessons" ∷ []);
  }

  unfoldable pub use_delete_lesson_mutation : Text → MutationOptions W (Unit {0})
  use_delete_lesson_mutation id = record {
    mutation_fn = delete_lesson send id;
    on_success = λ _. invalidated ("lessons" ∷ []);
  }
