-- ===== src/Api/Summaries.antt =====
-- frontend/lib/api/roles.ts, grades.ts, reports.ts and audit-logs.ts: what is only read.
use mentorio.Prelude.{
  ℕ, Bool, false, ◌&&◌, String, Option, none, some, List, [], ◌∷◌, if◌then◌else◌,
}
use mentorio.Prelude.Text.{Text, codes, same}
use mentorio.Prelude.Dict.{put}
use mentorio.Prelude.Number.{show}
use mentorio.Http.{Query, Url, HttpRequest, Response, no_init}
use mentorio.Json.{Json, str, prop}
use mentorio.Client.{Call, ◌>>=◌, return, api_fetch, from_option, malformed}
use mentorio.Client.Pages.{ResultPage, fetch_all_pages, paginated_of}
use mentorio.Api.{set_if, or_default, at}

-- `value === text`
abbrev pub is_text_value : Option Json → Text → Bool
is_text_value (some (str value)) text = same value text
is_text_value _ text = false

unfoldable pub find_role_by_slug : List Json → Text → Text → Option Json
find_role_by_slug [] organization_id slug = none
find_role_by_slug (r ∷ roles) organization_id slug =
    if is_text_value (prop "organization" r) organization_id && is_text_value (prop "slug" r) slug
    then some r
    else find_role_by_slug roles organization_id slug

-- `qs ? "?" + qs : ""`
abbrev pub behind_path : String → Query → Url
behind_path path [] = at path
behind_path path (entry ∷ query) = record { path = codes path; query = some (entry ∷ query) }

pub record ReportPeriodParams : Type 0 where
  pub start : Option Text
  pub end : Option Text

unfoldable pub period_query : ReportPeriodParams → Option Text → Option Text → Query
period_query params branch group =
    set_if "group" group
      (set_if "branch" branch (set_if "end" params.end (set_if "start" params.start [])))

pub record ListAuditLogsParams : Type 0 where
  pub organization_id : Option Text
  pub user_id : Option Text
  pub action : Option Text
  pub entity_type : Option Text
  pub date_from : Option Text
  pub date_to : Option Text
  pub page : Option ℕ
  pub page_size : Option ℕ

unfoldable pub audit_logs_query : ListAuditLogsParams → Query
audit_logs_query params = put "page_size" (show (or_default 100 params.page_size)) (
    put "page" (show (or_default 1 params.page)) (
      set_if "date_to" params.date_to (
        set_if "date_from" params.date_from (
          set_if "entity_type" params.entity_type (
            set_if "action" params.action
              (set_if "user" params.user_id (set_if "organization" params.organization_id [])))))))

module _ {W : Type 0} (send : HttpRequest → W → Option Response × W) where
  unfoldable pub list_roles : Call W (List Json)
  list_roles = fetch_all_pages send (codes "/api/v1/roles/") []

  unfoldable pub list_teacher_grade_summary : Option Text → Call W (Option Json)
  list_teacher_grade_summary group =
      api_fetch send (behind_path "/api/v1/grades/teacher-summary/" (set_if "group" group []))
        no_init

  unfoldable pub list_student_grade_summary : Call W (Option Json)
  list_student_grade_summary = api_fetch send (at "/api/v1/grades/student-summary/") no_init

  unfoldable pub list_students_summary_report :
      ReportPeriodParams → Option Text → Call W (Option Json)
  list_students_summary_report params branch =
      api_fetch send
        (behind_path "/api/v1/reports/students-summary/" (period_query params branch none)) no_init

  unfoldable pub list_teachers_summary_report :
      ReportPeriodParams → Option Text → Call W (Option Json)
  list_teachers_summary_report params branch =
      api_fetch send
        (behind_path "/api/v1/reports/teachers-summary/" (period_query params branch none)) no_init

  unfoldable pub get_attendance_summary_report :
      ReportPeriodParams → Option Text → Option Text → Call W (Option Json)
  get_attendance_summary_report params branch group =
      api_fetch send
        (behind_path "/api/v1/reports/attendance-summary/" (period_query params branch group))
        no_init

  unfoldable pub get_finance_summary_report : ReportPeriodParams → Call W (Option Json)
  get_finance_summary_report params =
      api_fetch send
        (behind_path "/api/v1/reports/finance-summary/" (period_query params none none)) no_init

  unfoldable pub list_audit_logs : ListAuditLogsParams → Call W ResultPage
  list_audit_logs params = do
    data_of ←
        api_fetch send
          (record { path = codes "/api/v1/audit-logs/"; query = some (audit_logs_query params) })
          no_init
    found ← from_option malformed (paginated_of data_of)
    return (record {
      results = found.results;
      page = found.pagination.page;
      page_count = found.pagination.pages;
      total_count = found.pagination.count;
    })
