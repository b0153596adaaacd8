-- ===== src/Queries/Attendance.antt =====
-- frontend/lib/queries/attendance.ts: its hooks, as the options that they hand to TanStack Query.
use mentorio.Prelude.{ℕ, true, false, Option, none, some, List, [], ◌∷◌, ◌++◌, String}
use mentorio.Prelude.Text.{Text}
use mentorio.Prelude.{◌&&◌}
use mentorio.Prelude.Int.{negsuc}
use mentorio.Dates.{Date}
use mentorio.Dates.Iso.{days_from_today_iso}
use mentorio.Http.{HttpRequest, Response}
use mentorio.Json.{Json, obj, str}
use mentorio.Client.Pages.{ResultPage}
use mentorio.Api.{given, defined}
use mentorio.Api.Attendance.{
  ListAttendanceParams, MarkAttendanceInput, MarkAttendancePatch, create_attendance,
  delete_attendance, list_attendance, list_attendance_page, update_attendance,
}
use mentorio.Queries.{name, is_text, paged, QueryOptions, MutationOptions, invalidated}

-- The options as a JavaScript object.
unfoldable pub list_attendance_params : ListAttendanceParams → List (String × Option Json)
list_attendance_params params =
    ("organizationId", some (str params.organization_id))
    ∷ ("group", given str params.group)
    ∷ ("studentProfile", given str params.student_profile)
    ∷ ("date", given str params.date)
    ∷ ("dateFrom", given str params.date_from)
    ∷ ("dateTo", given str params.date_to)
    ∷ ("status", given str params.status)
    ∷ ("search", given str params.search)
    ∷ []

abbrev pub dashboard_window_days : ℕ
dashboard_window_days = 30

-- The options of one group's query.
unfoldable pub group_window : Date → Text → Text → ListAttendanceParams
group_window today organization_id group_id = record {
  organization_id = organization_id;
  group = some group_id;
  student_profile = none;
  date = none;
  date_from = some (days_from_today_iso today (negsuc 29));
  date_to = none;
  status = none;
  search = none;
}

module _ {W : Type 0} (send : HttpRequest → W → Option Response × W) where
  unfoldable pub use_attendance_query : ListAttendanceParams → QueryOptions W (List Json)
  use_attendance_query params = record {
    query_key = name "attendance" ∷ obj (defined (list_attendance_params params)) ∷ [];
    query_fn = list_attendance send params;
    enabled = is_text params.organization_id;
    keep_previous = false;
    stale_time = none;
  }

  unfoldable pub use_attendance_page_query :
      ListAttendanceParams → Option ℕ → Option ℕ → QueryOptions W ResultPage
  use_attendance_page_query params page page_size = record {
    query_key =
        name "attendance-page"
        ∷ obj (defined (list_attendance_params params ++ paged page page_size))
        ∷ [];
    query_fn = list_attendance_page send params page page_size;
    enabled = is_text params.organization_id;
    keep_previous = true;
    stale_time = none;
  }

  unfoldable pub use_create_attendance_mutation :
      MarkAttendanceInput → MutationOptions W (Option Json)
  use_create_attendance_mutation input = record {
    mutation_fn = create_attendance send input;
    on_success = λ _. invalidated ("attendance" ∷ "attendance-page" ∷ []);
  }

  unfoldable pub use_update_attendance_mutation :
      Text → MarkAttendancePatch → MutationOptions W (Option Json)
  use_update_attendance_mutation attendance_id input = record {
    mutation_fn = update_attendance send attendance_id input;
    on_success = λ _. invalidated ("attendance" ∷ "attendance-page" ∷ []);
  }

  unfoldable pub use_delete_attendance_mutation : Text → MutationOptions W (Unit {0})
  use_delete_attendance_mutation attendance_id = record {
    mutation_fn = delete_attendance send attendance_id;
    on_success = λ _. invalidated ("attendance" ∷ "attendance-page" ∷ []);
  }

  -- The queries of the groups; `today` is the date of the clock.
  unfoldable pub use_attendance_for_groups_query :
      Date → Text → List Text → List (QueryOptions W (List Json))
  use_attendance_for_groups_query today organization_id [] = []
  use_attendance_for_groups_query today organization_id (group_id ∷ group_ids) =
      record {
        query_key =
            name "attendance"
            ∷ obj (defined (list_attendance_params (group_window today organization_id group_id)))
            ∷ [];
        query_fn = list_attendance send (group_window today organization_id group_id);
        enabled = is_text organization_id && is_text group_id;
        keep_previous = false;
        stale_time = none;
      }
      ∷ use_attendance_for_groups_query today organization_id group_ids
