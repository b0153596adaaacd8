-- ===== src/Api/Expenses.antt =====
-- frontend/lib/api/finance.ts: expenses.
use mentorio.Prelude.{ℕ, String, Option, some, List, [], ◌∷◌}
use mentorio.Prelude.Text.{Text, codes}
use mentorio.Http.{Query, HttpRequest, Response}
use mentorio.Json.{Json, str, num, Decimal}
use mentorio.Client.{Call, ◌>>=◌, return, api_fetch}
use mentorio.Client.Pages.{ResultPage, fetch_page, fetch_all_pages}
use mentorio.Api.{
  set_if, or_null, truthy_text, or_default, given, post, post_nothing, delete, at, item,
}

pub record ListExpensesParams : Type 0 where
  pub organization_id : Text
  pub branch : Option Text
  pub category : Option Text
  pub status : Option Text
  pub search : Option Text
  pub date_from : Option Text
  pub date_to : Option Text

unfoldable pub expenses_query : ListExpensesParams → Query
expenses_query params = set_if "date_to" params.date_to (
    set_if "date_from" params.date_from (
      set_if "search" params.search (
        set_if "status" params.status (
          set_if "category" params.category
            (set_if "branch" params.branch (("organization", params.organization_id) ∷ []))))))

pub record ExpenseInput : Type 0 where
  pub organization_id : Text
  pub branch : Option Text
  pub category : Text
  pub title : Text
  pub amount : Decimal
  pub expense_date : Option Text
  pub vendor_name : Option Text
  pub notes : Option Text

unfoldable pub create_expense_body : ExpenseInput → List (String × Option Json)
create_expense_body input =
    ("organization", some (str input.organization_id))
    ∷ ("branch", some (or_null input.branch))
    ∷ ("category", some (str input.category))
    ∷ ("title", some (str input.title))
    ∷ ("amount", some (num input.amount))
    ∷ ("expense_date", given str (truthy_text input.expense_date))
    ∷ ("vendor_name", some (or_null input.vendor_name))
    ∷ ("notes", some (or_null input.notes))
    ∷ []

unfoldable pub mark_expense_paid_body : Option Text → List (String × Option Json)
mark_expense_paid_body payment_method = ("payment_method", given str payment_method) ∷ []

module _ {W : Type 0} (send : HttpRequest → W → Option Response × W) where
  unfoldable pub list_expenses : ListExpensesParams → Call W (List Json)
  list_expenses params =
      fetch_all_pages send (codes "/api/v1/finance/expenses/") (expenses_query params)

  unfoldable pub list_expenses_page : ListExpensesParams → Option ℕ → Option ℕ → Call W ResultPage
  list_expenses_page params page page_size =
      fetch_page send (codes "/api/v1/finance/expenses/") (expenses_query params)
        (or_default 1 page) (or_default 20 page_size)

  unfoldable pub create_expense : ExpenseInput → Call W (Option Json)
  create_expense input =
      api_fetch send (at "/api/v1/finance/expenses/") (post (create_expense_body input))

  unfoldable pub delete_expense : Text → Call W (Unit {0})
  delete_expense expense_id =
      api_fetch send (item "/api/v1/finance/expenses/" expense_id "/") delete >>= λ _. return tt

  unfoldable pub approve_expense : Text → Call W (Option Json)
  approve_expense expense_id =
      api_fetch send (item "/api/v1/finance/expenses/" expense_id "/approve/") post_nothing

  unfoldable pub reject_expense : Text → Call W (Option Json)
  reject_expense expense_id =
      api_fetch send (item "/api/v1/finance/expenses/" expense_id "/reject/") post_nothing

  unfoldable pub mark_expense_paid : Text → Option Text → Call W (Option Json)
  mark_expense_paid expense_id payment_method =
      api_fetch send (item "/api/v1/finance/expenses/" expense_id "/mark-paid/")
        (post (mark_expense_paid_body payment_method))
