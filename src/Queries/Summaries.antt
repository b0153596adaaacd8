-- ===== src/Queries/Summaries.antt =====
-- frontend/lib/queries/reports.ts, grades.ts and audit-logs.ts, and the hooks for a role of
-- administrators.ts, students.ts and teachers.ts.
use mentorio.Prelude.{true, false, Option, none, some, List, [], ◌∷◌, String}
use mentorio.Prelude.Text.{Text}
use mentorio.Http.{HttpRequest, Response}
use mentorio.Json.{Json, obj, str, whole}
use mentorio.Client.Pages.{ResultPage}
use mentorio.Api.{given, defined}
use mentorio.Api.Summaries.{
  ReportPeriodParams, ListAuditLogsParams, find_role_by_slug, list_roles,
  list_teacher_grade_summary, list_student_grade_summary, list_students_summary_report,
  list_teachers_summary_report, get_attendance_summary_report, get_finance_summary_report,
  list_audit_logs,
}
use mentorio.Queries.{name, is_given, QueryOptions}

unfoldable pub report_period : ReportPeriodParams → List (String × Option Json)
report_period params = ("start", given str params.start) ∷ ("end", given str params.end) ∷ []

unfoldable pub audit_logs_options : ListAuditLogsParams → List (String × Option Json)
audit_logs_options params =
    ("organizationId", given str params.organization_id)
    ∷ ("userId", given str params.user_id)
    ∷ ("action", given str params.action)
    ∷ ("entityType", given str params.entity_type)
    ∷ ("dateFrom", given str params.date_from)
    ∷ ("dateTo", given str params.date_to)
    ∷ ("page", given whole params.page)
    ∷ ("pageSize", given whole params.page_size)
    ∷ []

-- `select`, for the role of a slug.
unfoldable pub select_role : Text → Option Text → List Json → Option Json
select_role slug (some (c ∷ id)) roles = find_role_by_slug roles (c ∷ id) slug
select_role slug _ roles = none

module _ {W : Type 0} (send : HttpRequest → W → Option Response × W) where
  -- The query of the hooks for a role; each takes its role from the answer by `select_role`.
  unfoldable pub use_role_query : Option Text → QueryOptions W (List Json)
  use_role_query organization_id = record {
    query_key = name "roles" ∷ [];
    query_fn = list_roles send;
    enabled = is_given organization_id;
    keep_previous = false;
    stale_time = some 300000;
  }

  unfoldable pub use_students_summary_report_query :
      ReportPeriodParams → QueryOptions W (Option Json)
  use_students_summary_report_query params = record {
    query_key = name "reports-students-summary" ∷ obj (defined (report_period params)) ∷ [];
    query_fn = list_students_summary_report send params none;
    enabled = true;
    keep_previous = false;
    stale_time = none;
  }

  unfoldable pub use_teachers_summary_report_query :
      ReportPeriodParams → QueryOptions W (Option Json)
  use_teachers_summary_report_query params = record {
    query_key = name "reports-teachers-summary" ∷ obj (defined (report_period params)) ∷ [];
    query_fn = list_teachers_summary_report send params none;
    enabled = true;
    keep_previous = false;
    stale_time = none;
  }

  unfoldable pub use_attendance_summary_report_query :
      ReportPeriodParams → QueryOptions W (Option Json)
  use_attendance_summary_report_query params = record {
    query_key = name "reports-attendance-summary" ∷ obj (defined (report_period params)) ∷ [];
    query_fn = get_attendance_summary_report send params none none;
    enabled = true;
    keep_previous = false;
    stale_time = none;
  }

  unfoldable pub use_finance_summary_report_query :
      ReportPeriodParams → QueryOptions W (Option Json)
  use_finance_summary_report_query params = record {
    query_key = name "reports-finance-summary" ∷ obj (defined (report_period params)) ∷ [];
    query_fn = get_finance_summary_report send params;
    enabled = true;
    keep_previous = false;
    stale_time = none;
  }

  unfoldable pub use_audit_logs_query : ListAuditLogsParams → QueryOptions W ResultPage
  use_audit_logs_query params = record {
    query_key = name "audit-logs" ∷ obj (defined (audit_logs_options params)) ∷ [];
    query_fn = list_audit_logs send params;
    enabled = true;
    keep_previous = true;
    stale_time = none;
  }

  unfoldable pub use_teacher_grade_summary_query : Option Text → QueryOptions W (Option Json)
  use_teacher_grade_summary_query group = record {
    query_key = name "teacher-grade-summary" ∷ obj (defined (("group", given str group) ∷ [])) ∷ [];
    query_fn = list_teacher_grade_summary send group;
    enabled = true;
    keep_previous = false;
    stale_time = none;
  }

  unfoldable pub use_student_grade_summary_query : QueryOptions W (Option Json)
  use_student_grade_summary_query = record {
    query_key = name "student-grade-summary" ∷ [];
    query_fn = list_student_grade_summary send;
    enabled = true;
    keep_previous = false;
    stale_time = none;
  }
