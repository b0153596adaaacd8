-- ===== src/Queries/Invoices.antt =====
-- frontend/lib/queries/finance.ts: its hooks, as the options that they hand to TanStack Query.
use mentorio.Prelude.{ℕ, Bool, true, false, Option, none, some, List, [], ◌∷◌, ◌++◌, String}
use mentorio.Prelude.Text.{Text}
use mentorio.Http.{HttpRequest, Response}
use mentorio.Json.{Json, obj, str}
use mentorio.Client.Pages.{ResultPage}
use mentorio.Api.{given, defined}
use mentorio.Api.GroupBilling.{
  GroupPaymentInput, ListGroupBillingParams, PaymentInput, create_payment, get_group_billing,
  list_group_billing_page, record_group_payment,
}
use mentorio.Api.Invoices.{
  InvoiceInput, ListInvoicesParams, ListPaymentsParams, create_invoice, create_self_invoice,
  delete_invoice, list_invoices, list_invoices_page, list_payments,
}
use mentorio.Queries.{
  name, is_text, paged, QueryOptions, MutationOptions, set_query_data, invalidated,
}

-- The options as a JavaScript object.
unfoldable pub list_invoices_params : ListInvoicesParams → List (String × Option Json)
list_invoices_params params =
    ("organizationId", some (str params.organization_id))
    ∷ ("studentProfile", given str params.student_profile)
    ∷ ("group", given str params.group)
    ∷ ("status", given str params.status)
    ∷ ("search", given str params.search)
    ∷ ("dateFrom", given str params.date_from)
    ∷ ("dateTo", given str params.date_to)
    ∷ []

-- The options as a JavaScript object.
unfoldable pub list_payments_params : ListPaymentsParams → List (String × Option Json)
list_payments_params params =
    ("organizationId", some (str params.organization_id))
    ∷ ("invoice", given str params.invoice)
    ∷ ("studentProfile", given str params.student_profile)
    ∷ ("dateFrom", given str params.date_from)
    ∷ ("dateTo", given str params.date_to)
    ∷ []

-- The options as a JavaScript object.
unfoldable pub list_group_billing_params : ListGroupBillingParams → List (String × Option Json)
list_group_billing_params params =
    ("period", some (str params.period)) ∷ ("search", given str params.search) ∷ []

module _ {W : Type 0} (send : HttpRequest → W → Option Response × W) where
  unfoldable pub use_invoices_query : ListInvoicesParams → QueryOptions W (List Json)
  use_invoices_query params = record {
    query_key = name "invoices" ∷ obj (defined (list_invoices_params params)) ∷ [];
    query_fn = list_invoices send params;
    enabled = is_text params.organization_id;
    keep_previous = false;
    stale_time = none;
  }

  unfoldable pub use_invoices_page_query :
      ListInvoicesParams → Option ℕ → Option ℕ → QueryOptions W ResultPage
  use_invoices_page_query params page page_size = record {
    query_key =
        name "invoices-page"
        ∷ obj (defined (list_invoices_params params ++ paged page page_size))
        ∷ [];
    query_fn = list_invoices_page send params page page_size;
    enabled = is_text params.organization_id;
    keep_previous = true;
    stale_time = none;
  }

  unfoldable pub use_payments_query : ListPaymentsParams → QueryOptions W (List Json)
  use_payments_query params = record {
    query_key = name "payments" ∷ obj (defined (list_payments_params params)) ∷ [];
    query_fn = list_payments send params;
    enabled = is_text params.organization_id;
    keep_previous = false;
    stale_time = none;
  }

  unfoldable pub use_create_invoice_mutation : InvoiceInput → MutationOptions W (Option Json)
  use_create_invoice_mutation input = record {
    mutation_fn = create_invoice send input;
    on_success = λ _. invalidated ("invoices" ∷ "invoices-page" ∷ []);
  }

  unfoldable pub use_delete_invoice_mutation : Text → MutationOptions W (Unit {0})
  use_delete_invoice_mutation invoice_id = record {
    mutation_fn = delete_invoice send invoice_id;
    on_success = λ _. invalidated ("invoices" ∷ "invoices-page" ∷ []);
  }

  unfoldable pub use_create_self_invoice_mutation : Text → MutationOptions W (Option Json)
  use_create_self_invoice_mutation group_id = record {
    mutation_fn = create_self_invoice send group_id;
    on_success = λ _. invalidated ("invoices" ∷ "invoices-page" ∷ []);
  }

  unfoldable pub use_create_payment_mutation : PaymentInput → MutationOptions W (Option Json)
  use_create_payment_mutation input = record {
    mutation_fn = create_payment send input;
    on_success = λ _. invalidated ("payments" ∷ "invoices" ∷ "invoices-page" ∷ []);
  }

  unfoldable pub use_group_billing_page_query :
      ListGroupBillingParams → Option ℕ → QueryOptions W ResultPage
  use_group_billing_page_query params page = record {
    query_key =
        name "group-billing"
        ∷ obj (defined (list_group_billing_params params ++ paged page none))
        ∷ [];
    query_fn = list_group_billing_page send params page;
    enabled = true;
    keep_previous = true;
    stale_time = none;
  }

  unfoldable pub use_group_billing_query : Text → Text → Bool → QueryOptions W (Option Json)
  use_group_billing_query group_id period enabled = record {
    query_key = name "group-billing-detail" ∷ str group_id ∷ str period ∷ [];
    query_fn = get_group_billing send group_id period;
    enabled = enabled;
    keep_previous = false;
    stale_time = none;
  }

  unfoldable pub use_record_group_payment_mutation :
      GroupPaymentInput → MutationOptions W (Option Json)
  use_record_group_payment_mutation input = record {
    mutation_fn = record_group_payment send input;
    on_success = λ detail.
        set_query_data (name "group-billing-detail" ∷ str input.group_id ∷ str input.period ∷ [])
          detail
        ∷ invalidated ("group-billing" ∷ "payments" ∷ "invoices" ∷ "invoices-page" ∷ []);
  }
