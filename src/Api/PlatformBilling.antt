-- ===== src/Api/PlatformBilling.antt =====
-- frontend/lib/api/billing.ts: what centers pay for the platform.
use mentorio.Prelude.{ℕ, String, Option, some, List, [], ◌∷◌}
use mentorio.Prelude.Text.{Text, codes}
use mentorio.Http.{Query, HttpRequest, Response}
use mentorio.Json.{Json, str, num, Decimal}
use mentorio.Client.{Call, ◌>>=◌, return, api_fetch}
use mentorio.Client.Pages.{ResultPage, fetch_page, fetch_all_pages}
use mentorio.Api.{set_if, or_null, or_default, post, delete, at, item}

pub record ListPlatformInvoicesParams : Type 0 where
  pub organization : Option Text
  pub subscription_plan : Option Text
  pub status : Option Text
  pub search : Option Text
  pub date_from : Option Text
  pub date_to : Option Text

unfoldable pub platform_invoices_query : ListPlatformInvoicesParams → Query
platform_invoices_query params = set_if "date_to" params.date_to (
    set_if "date_from" params.date_from (
      set_if "search" params.search (
        set_if "status" params.status (
          set_if "subscription_plan" params.subscription_plan
            (set_if "organization" params.organization [])))))

pub record PlatformInvoiceInput : Type 0 where
  pub organization : Text
  pub subscription_plan : Text
  pub amount : Decimal
  pub period_start : Text
  pub period_end : Text
  pub due_date : Text
  pub notes : Option Text

unfoldable pub create_platform_invoice_body : PlatformInvoiceInput → List (String × Option Json)
create_platform_invoice_body input =
    ("organization", some (str input.organization))
    ∷ ("subscription_plan", some (str input.subscription_plan))
    ∷ ("amount", some (num input.amount))
    ∷ ("period_start", some (str input.period_start))
    ∷ ("period_end", some (str input.period_end))
    ∷ ("due_date", some (str input.due_date))
    ∷ ("notes", some (or_null input.notes))
    ∷ []

pub record ListPlatformPaymentsParams : Type 0 where
  pub organization : Option Text
  pub platform_invoice : Option Text
  pub date_from : Option Text
  pub date_to : Option Text

unfoldable pub platform_payments_query : ListPlatformPaymentsParams → Query
platform_payments_query params = set_if "date_to" params.date_to (
    set_if "date_from" params.date_from (
      set_if "platform_invoice" params.platform_invoice
        (set_if "organization" params.organization [])))

pub record PlatformPaymentInput : Type 0 where
  pub platform_invoice : Text
  pub amount : Decimal
  pub method : Text
  pub reference_note : Option Text

unfoldable pub create_platform_payment_body : PlatformPaymentInput → List (String × Option Json)
create_platform_payment_body input =
    ("platform_invoice", some (str input.platform_invoice))
    ∷ ("amount", some (num input.amount))
    ∷ ("method", some (str input.method))
    ∷ ("reference_note", some (or_null input.reference_note))
    ∷ []

module _ {W : Type 0} (send : HttpRequest → W → Option Response × W) where
  unfoldable pub delete_subscription_plan : Text → Call W (Unit {0})
  delete_subscription_plan id =
      api_fetch send (item "/api/v1/billing/subscription-plans/" id "/") delete >>= λ _. return tt

  unfoldable pub list_platform_invoices : ListPlatformInvoicesParams → Call W (List Json)
  list_platform_invoices params =
      fetch_all_pages send (codes "/api/v1/billing/platform-invoices/")
        (platform_invoices_query params)

  unfoldable pub list_platform_invoices_page :
      ListPlatformInvoicesParams → Option ℕ → Option ℕ → Call W ResultPage
  list_platform_invoices_page params page page_size =
      fetch_page send (codes "/api/v1/billing/platform-invoices/") (platform_invoices_query params)
        (or_default 1 page) (or_default 20 page_size)

  unfoldable pub create_platform_invoice : PlatformInvoiceInput → Call W (Option Json)
  create_platform_invoice input =
      api_fetch send (at "/api/v1/billing/platform-invoices/")
        (post (create_platform_invoice_body input))

  unfoldable pub delete_platform_invoice : Text → Call W (Unit {0})
  delete_platform_invoice id =
      api_fetch send (item "/api/v1/billing/platform-invoices/" id "/") delete >>= λ _. return tt

  unfoldable pub list_platform_payments : ListPlatformPaymentsParams → Call W (List Json)
  list_platform_payments params =
      fetch_all_pages send (codes "/api/v1/billing/platform-payments/")
        (platform_payments_query params)

  unfoldable pub create_platform_payment : PlatformPaymentInput → Call W (Option Json)
  create_platform_payment input =
      api_fetch send (at "/api/v1/billing/platform-payments/")
        (post (create_platform_payment_body input))
