-- ===== src/Api/Invoices.antt =====
-- frontend/lib/api/finance.ts: invoices, and the list of payments.
use mentorio.Prelude.{ℕ, String, Option, some, List, [], ◌∷◌}
use mentorio.Prelude.Text.{Text, codes}
use mentorio.Http.{Query, HttpRequest, Response}
use mentorio.Json.{Json, str, num, Decimal}
use mentorio.Client.{Call, ◌>>=◌, return, api_fetch}
use mentorio.Client.Pages.{ResultPage, fetch_page, fetch_all_pages}
use mentorio.Api.{set_if, or_null, or_default, post, delete, at, item}

pub record ListInvoicesParams : Type 0 where
  pub organization_id : Text
  pub student_profile : Option Text
  pub group : Option Text
  pub status : Option Text
  pub search : Option Text
  pub date_from : Option Text
  pub date_to : Option Text

unfoldable pub invoices_query : ListInvoicesParams → Query
invoices_query params = set_if "date_to" params.date_to (
    set_if "date_from" params.date_from (
      set_if "search" params.search (
        set_if "status" params.status (
          set_if "group" params.group (
            set_if "student_profile" params.student_profile
              (("organization", params.organization_id) ∷ []))))))

pub record InvoiceInput : Type 0 where
  pub organization_id : Text
  pub student_profile : Text
  pub group : Option Text
  pub total_amount : Decimal
  pub due_date : Text
  pub notes : Option Text

unfoldable pub create_invoice_body : InvoiceInput → List (String × Option Json)
create_invoice_body input =
    ("organization", some (str input.organization_id))
    ∷ ("student_profile", some (str input.student_profile))
    ∷ ("group", some (or_null input.group))
    ∷ ("total_amount", some (num input.total_amount))
    ∷ ("due_date", some (str input.due_date))
    ∷ ("notes", some (or_null input.notes))
    ∷ []

unfoldable pub create_self_invoice_body : Text → List (String × Option Json)
create_self_invoice_body group_id = ("group", some (str group_id)) ∷ []

pub record ListPaymentsParams : Type 0 where
  pub organization_id : Text
  pub invoice : Option Text
  pub student_profile : Option Text
  pub date_from : Option Text
  pub date_to : Option Text

unfoldable pub payments_query : ListPaymentsParams → Query
payments_query params = set_if "date_to" params.date_to (
    set_if "date_from" params.date_from (
      set_if "student_profile" params.student_profile
        (set_if "invoice" params.invoice (("organization", params.organization_id) ∷ []))))

module _ {W : Type 0} (send : HttpRequest → W → Option Response × W) where
  unfoldable pub list_invoices : ListInvoicesParams → Call W (List Json)
  list_invoices params =
      fetch_all_pages send (codes "/api/v1/finance/invoices/") (invoices_query params)

  unfoldable pub list_invoices_page : ListInvoicesParams → Option ℕ → Option ℕ → Call W ResultPage
  list_invoices_page params page page_size =
      fetch_page send (codes "/api/v1/finance/invoices/") (invoices_query params)
        (or_default 1 page) (or_default 20 page_size)

  unfoldable pub create_invoice : InvoiceInput → Call W (Option Json)
  create_invoice input =
      api_fetch send (at "/api/v1/finance/invoices/") (post (create_invoice_body input))

  unfoldable pub delete_invoice : Text → Call W (Unit {0})
  delete_invoice invoice_id =
      api_fetch send (item "/api/v1/finance/invoices/" invoice_id "/") delete >>= λ _. return tt

  unfoldable pub create_self_invoice : Text → Call W (Option Json)
  create_self_invoice group_id =
      api_fetch send (at "/api/v1/finance/invoices/self-create/")
        (post (create_self_invoice_body group_id))

  unfoldable pub list_payments : ListPaymentsParams → Call W (List Json)
  list_payments params =
      fetch_all_pages send (codes "/api/v1/finance/payments/") (payments_query params)
