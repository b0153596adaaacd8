-- ===== src/Queries/Billing.antt =====
-- frontend/lib/queries/billing.ts: its hooks, as the options that they hand to TanStack Query.
use mentorio.Prelude.{ℕ, true, false, Option, none, List, [], ◌∷◌, ◌++◌, String}
use mentorio.Prelude.Text.{Text}
use mentorio.Http.{HttpRequest, Response}
use mentorio.Json.{Json, obj, str, bool}
use mentorio.Client.Pages.{ResultPage}
use mentorio.Api.{given, defined}
use mentorio.Api.Plans.{
  ListSubscriptionPlansParams, SubscriptionPlanInput, SubscriptionPlanPatch,
  create_subscription_plan, list_subscription_plans, update_subscription_plan,
}
use mentorio.Api.PlatformBilling.{
  ListPlatformInvoicesParams, ListPlatformPaymentsParams, PlatformInvoiceInput,
  PlatformPaymentInput, create_platform_invoice, create_platform_payment, delete_platform_invoice,
  delete_subscription_plan, list_platform_invoices, list_platform_invoices_page,
  list_platform_payments,
}
use mentorio.Queries.{name, paged, QueryOptions, MutationOptions, invalidated}

-- The options as a JavaScript object.
unfoldable pub list_subscription_plans_params :
    ListSubscriptionPlansParams → List (String × Option Json)
list_subscription_plans_params params =
    ("isActive", given bool params.is_active)
    ∷ ("billingCycle", given str params.billing_cycle)
    ∷ ("search", given str params.search)
    ∷ []

-- The options as a JavaScript object.
unfoldable pub list_platform_invoices_params :
    ListPlatformInvoicesParams → List (String × Option Json)
list_platform_invoices_params params =
    ("organization", given str params.organization)
    ∷ ("subscriptionPlan", given str params.subscription_plan)
    ∷ ("status", given str params.status)
    ∷ ("search", given str params.search)
    ∷ ("dateFrom", given str params.date_from)
    ∷ ("dateTo", given str params.date_to)
    ∷ []

-- The options as a JavaScript object.
unfoldable pub list_platform_payments_params :
    ListPlatformPaymentsParams → List (String × Option Json)
list_platform_payments_params params =
    ("organization", given str params.organization)
    ∷ ("platformInvoice", given str params.platform_invoice)
    ∷ ("dateFrom", given str params.date_from)
    ∷ ("dateTo", given str params.date_to)
    ∷ []

module _ {W : Type 0} (send : HttpRequest → W → Option Response × W) where
  unfoldable pub use_subscription_plans_query :
      ListSubscriptionPlansParams → QueryOptions W (List Json)
  use_subscription_plans_query params = record {
    query_key =
        name "subscription-plans" ∷ obj (defined (list_subscription_plans_params params)) ∷ [];
    query_fn = list_subscription_plans send params;
    enabled = true;
    keep_previous = false;
    stale_time = none;
  }

  unfoldable pub use_create_subscription_plan_mutation :
      SubscriptionPlanInput → MutationOptions W (Option Json)
  use_create_subscription_plan_mutation input = record {
    mutation_fn = create_subscription_plan send input;
    on_success = λ _. invalidated ("subscription-plans" ∷ []);
  }

  unfoldable pub use_update_subscription_plan_mutation :
      Text → SubscriptionPlanPatch → MutationOptions W (Option Json)
  use_update_subscription_plan_mutation id input = record {
    mutation_fn = update_subscription_plan send id input;
    on_success = λ _. invalidated ("subscription-plans" ∷ "organizations" ∷ []);
  }

  unfoldable pub use_delete_subscription_plan_mutation : Text → MutationOptions W (Unit {0})
  use_delete_subscription_plan_mutation id = record {
    mutation_fn = delete_subscription_plan send id;
    on_success = λ _. invalidated ("subscription-plans" ∷ []);
  }

  unfoldable pub use_platform_invoices_query :
      ListPlatformInvoicesParams → QueryOptions W (List Json)
  use_platform_invoices_query params = record {
    query_key =
        name "platform-invoices" ∷ obj (defined (list_platform_invoices_params params)) ∷ [];
    query_fn = list_platform_invoices send params;
    enabled = true;
    keep_previous = false;
    stale_time = none;
  }

  unfoldable pub use_platform_invoices_page_query :
      ListPlatformInvoicesParams → Option ℕ → Option ℕ → QueryOptions W ResultPage
  use_platform_invoices_page_query params page page_size = record {
    query_key =
        name "platform-invoices-page"
        ∷ obj (defined (list_platform_invoices_params params ++ paged page page_size))
        ∷ [];
    query_fn = list_platform_invoices_page send params page page_size;
    enabled = true;
    keep_previous = true;
    stale_time = none;
  }

  unfoldable pub use_create_platform_invoice_mutation :
      PlatformInvoiceInput → MutationOptions W (Option Json)
  use_create_platform_invoice_mutation input = record {
    mutation_fn = create_platform_invoice send input;
    on_success = λ _. invalidated ("platform-invoices" ∷ "platform-invoices-page" ∷ []);
  }

  unfoldable pub use_delete_platform_invoice_mutation : Text → MutationOptions W (Unit {0})
  use_delete_platform_invoice_mutation id = record {
    mutation_fn = delete_platform_invoice send id;
    on_success = λ _. invalidated ("platform-invoices" ∷ "platform-invoices-page" ∷ []);
  }

  unfoldable pub use_platform_payments_query :
      ListPlatformPaymentsParams → QueryOptions W (List Json)
  use_platform_payments_query params = record {
    query_key =
        name "platform-payments" ∷ obj (defined (list_platform_payments_params params)) ∷ [];
    query_fn = list_platform_payments send params;
    enabled = true;
    keep_previous = false;
    stale_time = none;
  }

  unfoldable pub use_create_platform_payment_mutation :
      PlatformPaymentInput → MutationOptions W (Option Json)
  use_create_platform_payment_mutation input = record {
    mutation_fn = create_platform_payment send input;
    on_success = λ _.
        invalidated ("platform-payments" ∷ "platform-invoices" ∷ "platform-invoices-page" ∷ []);
  }
