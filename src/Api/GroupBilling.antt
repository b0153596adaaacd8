-- ===== src/Api/GroupBilling.antt =====
-- frontend/lib/api/finance.ts: payments, and the monthly fees of a group.
use mentorio.Prelude.{◌++◌}
use mentorio.Http.{no_init}
use mentorio.Prelude.{ℕ, String, Option, some, List, [], ◌∷◌}
use mentorio.Prelude.Text.{Text, codes}
use mentorio.Http.{Query, HttpRequest, Response}
use mentorio.Json.{Json, str, num, Decimal}
use mentorio.Client.{Call, api_fetch}
use mentorio.Client.Pages.{ResultPage, fetch_page}
use mentorio.Api.{set_if, or_null, or_default, post, at, item}

pub record PaymentInput : Type 0 where
  pub organization_id : Text
  pub invoice : Text
  pub amount : Decimal
  pub payment_method : Option Text
  pub notes : Option Text

unfoldable pub create_payment_body : PaymentInput → List (String × Option Json)
create_payment_body input =
    ("organization", some (str input.organization_id))
    ∷ ("invoice", some (str input.invoice))
    ∷ ("amount", some (num input.amount))
    ∷ ("payment_method", some (str (or_default (codes "cash") input.payment_method)))
    ∷ ("notes", some (or_null input.notes))
    ∷ []

pub record ListGroupBillingParams : Type 0 where
  pub period : Text
  pub search : Option Text

unfoldable pub group_billing_page_query : ListGroupBillingParams → Query
group_billing_page_query params = set_if "search" params.search (("period", params.period) ∷ [])

pub record GroupPaymentInput : Type 0 where
  pub group_id : Text
  pub student_profile : Text
  pub period : Text
  pub amount : Decimal
  pub payment_method : Text
  pub notes : Option Text

unfoldable pub record_group_payment_body : GroupPaymentInput → List (String × Option Json)
record_group_payment_body input =
    ("student_profile", some (str input.student_profile))
    ∷ ("period", some (str input.period))
    ∷ ("amount", some (num input.amount))
    ∷ ("payment_method", some (str input.payment_method))
    ∷ ("notes", some (or_null input.notes))
    ∷ []

module _ {W : Type 0} (send : HttpRequest → W → Option Response × W) where
  unfoldable pub create_payment : PaymentInput → Call W (Option Json)
  create_payment input =
      api_fetch send (at "/api/v1/finance/payments/") (post (create_payment_body input))

  unfoldable pub list_group_billing_page : ListGroupBillingParams → Option ℕ → Call W ResultPage
  list_group_billing_page params page =
      fetch_page send (codes "/api/v1/finance/group-billing/") (group_billing_page_query params)
        (or_default 1 page) 20

  unfoldable pub record_group_payment : GroupPaymentInput → Call W (Option Json)
  record_group_payment input =
      api_fetch send (item "/api/v1/finance/group-billing/" input.group_id "/pay/")
        (post (record_group_payment_body input))

  unfoldable pub get_group_billing : Text → Text → Call W (Option Json)
  get_group_billing group_id period =
      api_fetch send
        (record {
          path = codes "/api/v1/finance/group-billing/" ++ group_id ++ codes "/";
          query = some (("period", period) ∷ []);
        })
        no_init
