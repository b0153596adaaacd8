-- ===== src/Queries/Gateways.antt =====
-- frontend/lib/queries/payment-gateways.ts: its hooks, as the options that they hand to TanStack Query.
use mentorio.Prelude.{false, Option, none, List, [], ◌∷◌}
use mentorio.Prelude.Text.{Text}
use mentorio.Http.{HttpRequest, Response}
use mentorio.Json.{Json, str}
use mentorio.Api.Gateways.{
  CheckoutInput, GatewayAccountInput, GatewayAccountPatch, create_gateway_account,
  delete_gateway_account, initiate_checkout, list_gateway_accounts, update_gateway_account,
}
use mentorio.Queries.{name, is_text, QueryOptions, MutationOptions, invalidated}

module _ {W : Type 0} (send : HttpRequest → W → Option Response × W) where
  unfoldable pub use_gateway_accounts_query : Text → QueryOptions W (List Json)
  use_gateway_accounts_query organization_id = record {
    query_key = name "gateway-accounts" ∷ str organization_id ∷ [];
    query_fn = list_gateway_accounts send organization_id;
    enabled = is_text organization_id;
    keep_previous = false;
    stale_time = none;
  }

  unfoldable pub use_create_gateway_account_mutation :
      GatewayAccountInput → MutationOptions W (Option Json)
  use_create_gateway_account_mutation input = record {
    mutation_fn = create_gateway_account send input;
    on_success = λ _. invalidated ("gateway-accounts" ∷ []);
  }

  unfoldable pub use_update_gateway_account_mutation :
      Text → GatewayAccountPatch → MutationOptions W (Option Json)
  use_update_gateway_account_mutation id input = record {
    mutation_fn = update_gateway_account send id input;
    on_success = λ _. invalidated ("gateway-accounts" ∷ []);
  }

  unfoldable pub use_delete_gateway_account_mutation : Text → MutationOptions W (Unit {0})
  use_delete_gateway_account_mutation id = record {
    mutation_fn = delete_gateway_account send id;
    on_success = λ _. invalidated ("gateway-accounts" ∷ []);
  }

  unfoldable pub use_initiate_checkout_mutation : CheckoutInput → MutationOptions W (Option Json)
  use_initiate_checkout_mutation input = record {
    mutation_fn = initiate_checkout send input;
    on_success = λ _. [];
  }
