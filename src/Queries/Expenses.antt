-- ===== src/Queries/Expenses.antt =====
-- frontend/lib/queries/finance.ts: its hooks, as the options that they hand to TanStack Query.
use mentorio.Prelude.{ℕ, true, false, Option, none, some, List, [], ◌∷◌, ◌++◌, String}
use mentorio.Prelude.Text.{Text}
use mentorio.Http.{HttpRequest, Response}
use mentorio.Json.{Json, obj, str}
use mentorio.Client.Pages.{ResultPage}
use mentorio.Api.{given, defined}
use mentorio.Api.Expenses.{
  ExpenseInput, ListExpensesParams, approve_expense, create_expense, delete_expense, list_expenses,
  list_expenses_page, mark_expense_paid, reject_expense,
}
use mentorio.Queries.{name, is_text, paged, QueryOptions, MutationOptions, Effect, invalidated}

-- The options as a JavaScript object.
unfoldable pub list_expenses_params : ListExpensesParams → List (String × Option Json)
list_expenses_params params =
    ("organizationId", some (str params.organization_id))
    ∷ ("branch", given str params.branch)
    ∷ ("category", given str params.category)
    ∷ ("status", given str params.status)
    ∷ ("search", given str params.search)
    ∷ ("dateFrom", given str params.date_from)
    ∷ ("dateTo", given str params.date_to)
    ∷ []

unfoldable pub invalidate_expenses : List Effect
invalidate_expenses = invalidated ("expenses" ∷ "expenses-page" ∷ [])

module _ {W : Type 0} (send : HttpRequest → W → Option Response × W) where
  unfoldable pub use_expenses_query : ListExpensesParams → QueryOptions W (List Json)
  use_expenses_query params = record {
    query_key = name "expenses" ∷ obj (defined (list_expenses_params params)) ∷ [];
    query_fn = list_expenses send params;
    enabled = is_text params.organization_id;
    keep_previous = false;
    stale_time = none;
  }

  unfoldable pub use_expenses_page_query :
      ListExpensesParams → Option ℕ → Option ℕ → QueryOptions W ResultPage
  use_expenses_page_query params page page_size = record {
    query_key =
        name "expenses-page"
        ∷ obj (defined (list_expenses_params params ++ paged page page_size))
        ∷ [];
    query_fn = list_expenses_page send params page page_size;
    enabled = is_text params.organization_id;
    keep_previous = true;
    stale_time = none;
  }

  unfoldable pub use_create_expense_mutation : ExpenseInput → MutationOptions W (Option Json)
  use_create_expense_mutation input = record {
    mutation_fn = create_expense send input;
    on_success = λ _. invalidate_expenses;
  }

  unfoldable pub use_delete_expense_mutation : Text → MutationOptions W (Unit {0})
  use_delete_expense_mutation expense_id = record {
    mutation_fn = delete_expense send expense_id;
    on_success = λ _. invalidate_expenses;
  }

  unfoldable pub use_approve_expense_mutation : Text → MutationOptions W (Option Json)
  use_approve_expense_mutation expense_id = record {
    mutation_fn = approve_expense send expense_id;
    on_success = λ _. invalidate_expenses;
  }

  unfoldable pub use_reject_expense_mutation : Text → MutationOptions W (Option Json)
  use_reject_expense_mutation expense_id = record {
    mutation_fn = reject_expense send expense_id;
    on_success = λ _. invalidate_expenses;
  }

  unfoldable pub use_mark_expense_paid_mutation :
      Text → Option Text → MutationOptions W (Option Json)
  use_mark_expense_paid_mutation expense_id payment_method = record {
    mutation_fn = mark_expense_paid send expense_id payment_method;
    on_success = λ _. invalidate_expenses;
  }
