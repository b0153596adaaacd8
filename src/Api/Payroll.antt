-- ===== src/Api/Payroll.antt =====
-- frontend/lib/api/finance.ts: payroll.
use mentorio.Prelude.{ℕ, String, Option, some, List, [], ◌∷◌}
use mentorio.Prelude.Text.{Text, codes}
use mentorio.Http.{Query, HttpRequest, Response}
use mentorio.Json.{Json, str, num, Decimal}
use mentorio.Client.{Call, ◌>>=◌, return, api_fetch}
use mentorio.Client.Pages.{ResultPage, fetch_page, fetch_all_pages}
use mentorio.Api.{
  set_if, or_null, or_default, whole_number, given, post, post_nothing, delete, at, item,
}

pub record ListPayrollParams : Type 0 where
  pub organization_id : Text
  pub teacher_profile : Option Text
  pub status : Option Text
  pub search : Option Text
  pub date_from : Option Text
  pub date_to : Option Text

unfoldable pub payroll_query : ListPayrollParams → Query
payroll_query params = set_if "date_to" params.date_to (
    set_if "date_from" params.date_from (
      set_if "status" params.status (
        set_if "teacher_profile" params.teacher_profile
          (("organization", params.organization_id) ∷ []))))

pub record PayrollInput : Type 0 where
  pub organization_id : Text
  pub teacher_profile : Text
  pub period_start : Text
  pub period_end : Text
  pub base_salary : Decimal
  pub bonus : Option Decimal
  pub deductions : Option Decimal
  pub tax_amount : Option Decimal
  pub notes : Option Text

unfoldable pub create_payroll_body : PayrollInput → List (String × Option Json)
create_payroll_body input =
    ("organization", some (str input.organization_id))
    ∷ ("teacher_profile", some (str input.teacher_profile))
    ∷ ("period_start", some (str input.period_start))
    ∷ ("period_end", some (str input.period_end))
    ∷ ("base_salary", some (num input.base_salary))
    ∷ ("bonus", some (num (or_default (whole_number 0) input.bonus)))
    ∷ ("deductions", some (num (or_default (whole_number 0) input.deductions)))
    ∷ ("tax_amount", some (num (or_default (whole_number 0) input.tax_amount)))
    ∷ ("notes", some (or_null input.notes))
    ∷ []

unfoldable pub mark_payroll_paid_body : Option Text → List (String × Option Json)
mark_payroll_paid_body payment_method = ("payment_method", given str payment_method) ∷ []

module _ {W : Type 0} (send : HttpRequest → W → Option Response × W) where
  unfoldable pub list_payroll : ListPayrollParams → Call W (List Json)
  list_payroll params =
      fetch_all_pages send (codes "/api/v1/finance/payroll/") (payroll_query params)

  unfoldable pub list_payroll_page : ListPayrollParams → Option ℕ → Option ℕ → Call W ResultPage
  list_payroll_page params page page_size =
      fetch_page send (codes "/api/v1/finance/payroll/") (payroll_query params) (or_default 1 page)
        (or_default 20 page_size)

  unfoldable pub create_payroll : PayrollInput → Call W (Option Json)
  create_payroll input =
      api_fetch send (at "/api/v1/finance/payroll/") (post (create_payroll_body input))

  unfoldable pub delete_payroll : Text → Call W (Unit {0})
  delete_payroll payroll_id =
      api_fetch send (item "/api/v1/finance/payroll/" payroll_id "/") delete >>= λ _. return tt

  unfoldable pub approve_payroll : Text → Call W (Option Json)
  approve_payroll payroll_id =
      api_fetch send (item "/api/v1/finance/payroll/" payroll_id "/approve/") post_nothing

  unfoldable pub cancel_payroll : Text → Call W (Option Json)
  cancel_payroll payroll_id =
      api_fetch send (item "/api/v1/finance/payroll/" payroll_id "/cancel/") post_nothing

  unfoldable pub mark_payroll_paid : Text → Option Text → Call W (Option Json)
  mark_payroll_paid payroll_id payment_method =
      api_fetch send (item "/api/v1/finance/payroll/" payroll_id "/mark-paid/")
        (post (mark_payroll_paid_body payment_method))
