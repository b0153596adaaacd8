-- ===== src/Api/Gateways.antt =====
-- frontend/lib/api/payment-gateways.ts: payment gateways.
use mentorio.Prelude.{String, Option, some, List, [], ◌∷◌, Bool}
use mentorio.Prelude.Text.{Text, codes}
use mentorio.Http.{Query, HttpRequest, Response}
use mentorio.Json.{Json, str, bool}
use mentorio.Client.{Call, ◌>>=◌, return, api_fetch}
use mentorio.Client.Pages.{fetch_all_pages}
use mentorio.Api.{
  or_null, text_or_null, truthy_text, or_default, given, post, patch, delete, at, item,
}

unfoldable pub gateway_accounts_query : Text → Query
gateway_accounts_query organization_id = ("organization", organization_id) ∷ []

pub record GatewayAccountInput : Type 0 where
  pub organization_id : Text
  pub provider : Text
  pub merchant_id : Text
  pub service_id : Option Text
  pub secret_key : Option Text
  pub is_active : Bool

unfoldable pub create_gateway_account_body : GatewayAccountInput → List (String × Option Json)
create_gateway_account_body input =
    ("organization", some (str input.organization_id))
    ∷ ("provider", some (str input.provider))
    ∷ ("merchant_id", some (str input.merchant_id))
    ∷ ("service_id", some (or_null input.service_id))
    ∷ ("secret_key", some (str (or_default [] input.secret_key)))
    ∷ ("is_active", some (bool input.is_active))
    ∷ []

pub record GatewayAccountPatch : Type 0 where
  pub organization_id : Option Text
  pub provider : Option Text
  pub merchant_id : Option Text
  pub service_id : Option Text
  pub secret_key : Option Text
  pub is_active : Option Bool

unfoldable pub update_gateway_account_body : GatewayAccountPatch → List (String × Option Json)
update_gateway_account_body input =
    ("merchant_id", given str input.merchant_id)
    ∷ ("service_id", given text_or_null input.service_id)
    ∷ ("secret_key", given str (truthy_text input.secret_key))
    ∷ ("is_active", given bool input.is_active)
    ∷ []

pub record CheckoutInput : Type 0 where
  pub invoice_id : Text
  pub provider : Text
  pub return_url : Option Text

unfoldable pub initiate_checkout_body : CheckoutInput → List (String × Option Json)
initiate_checkout_body input =
    ("invoice", some (str input.invoice_id))
    ∷ ("provider", some (str input.provider))
    ∷ ("return_url", given str input.return_url)
    ∷ []

module _ {W : Type 0} (send : HttpRequest → W → Option Response × W) where
  unfoldable pub list_gateway_accounts : Text → Call W (List Json)
  list_gateway_accounts organization_id =
      fetch_all_pages send (codes "/api/v1/payment-gateways/gateway-accounts/")
        (gateway_accounts_query organization_id)

  unfoldable pub create_gateway_account : GatewayAccountInput → Call W (Option Json)
  create_gateway_account input =
      api_fetch send (at "/api/v1/payment-gateways/gateway-accounts/")
        (post (create_gateway_account_body input))

  unfoldable pub update_gateway_account : Text → GatewayAccountPatch → Call W (Option Json)
  update_gateway_account id input =
      api_fetch send (item "/api/v1/payment-gateways/gateway-accounts/" id "/")
        (patch (update_gateway_account_body input))

  unfoldable pub delete_gateway_account : Text → Call W (Unit {0})
  delete_gateway_account id =
      api_fetch send (item "/api/v1/payment-gateways/gateway-accounts/" id "/") delete >>= λ _.
      return tt

  unfoldable pub initiate_checkout : CheckoutInput → Call W (Option Json)
  initiate_checkout input =
      api_fetch send (at "/api/v1/payment-gateways/checkout/") (post (initiate_checkout_body input))
