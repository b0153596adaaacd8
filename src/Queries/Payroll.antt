-- ===== src/Queries/Payroll.antt =====
-- frontend/lib/queries/finance.ts: its hooks, as the options that they hand to TanStack Query.
use mentorio.Prelude.{ℕ, true, false, Option, none, some, List, [], ◌∷◌, ◌++◌, String}
use mentorio.Prelude.Text.{Text}
use mentorio.Http.{HttpRequest, Response}
use mentorio.Json.{Json, obj, str}
use mentorio.Client.Pages.{ResultPage}
use mentorio.Api.{given, defined}
use mentorio.Api.Payroll.{
  ListPayrollParams, PayrollInput, approve_payroll, cancel_payroll, create_payroll, delete_payroll,
  list_payroll, list_payroll_page, mark_payroll_paid,
}
use mentorio.Queries.{name, is_text, paged, QueryOptions, MutationOptions, Effect, invalidated}

-- The options as a JavaScript object.
unfoldable pub list_payroll_params : ListPayrollParams → List (String × Option Json)
list_payroll_params params =
    ("organizationId", some (str params.organization_id))
    ∷ ("teacherProfile", given str params.teacher_profile)
    ∷ ("status", given str params.status)
    ∷ ("search", given str params.search)
    ∷ ("dateFrom", given str params.date_from)
    ∷ ("dateTo", given str params.date_to)
    ∷ []

unfoldable pub invalidate_payroll : List Effect
invalidate_payroll = invalidated ("payroll" ∷ "payroll-page" ∷ [])

module _ {W : Type 0} (send : HttpRequest → W → Option Response × W) where
  unfoldable pub use_payroll_query : ListPayrollParams → QueryOptions W (List Json)
  use_payroll_query params = record {
    query_key = name "payroll" ∷ obj (defined (list_payroll_params params)) ∷ [];
    query_fn = list_payroll send params;
    enabled = is_text params.organization_id;
    keep_previous = false;
    stale_time = none;
  }

  unfoldable pub use_payroll_page_query :
      ListPayrollParams → Option ℕ → Option ℕ → QueryOptions W ResultPage
  use_payroll_page_query params page page_size = record {
    query_key =
        name "payroll-page"
        ∷ obj (defined (list_payroll_params params ++ paged page page_size))
        ∷ [];
    query_fn = list_payroll_page send params page page_size;
    enabled = is_text params.organization_id;
    keep_previous = true;
    stale_time = none;
  }

  unfoldable pub use_create_payroll_mutation : PayrollInput → MutationOptions W (Option Json)
  use_create_payroll_mutation input = record {
    mutation_fn = create_payroll send input;
    on_success = λ _. invalidate_payroll;
  }

  unfoldable pub use_delete_payroll_mutation : Text → MutationOptions W (Unit {0})
  use_delete_payroll_mutation payroll_id = record {
    mutation_fn = delete_payroll send payroll_id;
    on_success = λ _. invalidate_payroll;
  }

  unfoldable pub use_approve_payroll_mutation : Text → MutationOptions W (Option Json)
  use_approve_payroll_mutation payroll_id = record {
    mutation_fn = approve_payroll send payroll_id;
    on_success = λ _. invalidate_payroll;
  }

  unfoldable pub use_cancel_payroll_mutation : Text → MutationOptions W (Option Json)
  use_cancel_payroll_mutation payroll_id = record {
    mutation_fn = cancel_payroll send payroll_id;
    on_success = λ _. invalidate_payroll;
  }

  unfoldable pub use_mark_payroll_paid_mutation :
      Text → Option Text → MutationOptions W (Option Json)
  use_mark_payroll_paid_mutation payroll_id payment_method = record {
    mutation_fn = mark_payroll_paid send payroll_id payment_method;
    on_success = λ _. invalidate_payroll;
  }
