-- ===== src/Queries/Organizations.antt =====
-- frontend/lib/queries/organizations.ts: its hooks, as the options that they hand to TanStack Query.
use mentorio.Prelude.{ℕ, true, false, Option, none, List, [], ◌∷◌, ◌++◌, String}
use mentorio.Prelude.Text.{Text}
use mentorio.Http.{HttpRequest, Response}
use mentorio.Json.{Json, obj, str}
use mentorio.Client.Pages.{ResultPage}
use mentorio.Api.{given, defined}
use mentorio.Api.Organizations.{
  ListOrganizationsParams, OrganizationPatch, delete_organization, list_organizations,
  list_organizations_page, suspend_organization, update_organization,
}
use mentorio.Queries.{name, paged, QueryOptions, MutationOptions, invalidated}

-- The options as a JavaScript object.
unfoldable pub list_organizations_params : ListOrganizationsParams → List (String × Option Json)
list_organizations_params params =
    ("status", given str params.status)
    ∷ ("subscriptionPlan", given str params.subscription_plan)
    ∷ ("country", given str params.country)
    ∷ ("search", given str params.search)
    ∷ []

module _ {W : Type 0} (send : HttpRequest → W → Option Response × W) where
  unfoldable pub use_organizations_query : ListOrganizationsParams → QueryOptions W (List Json)
  use_organizations_query params = record {
    query_key = name "organizations" ∷ obj (defined (list_organizations_params params)) ∷ [];
    query_fn = list_organizations send params;
    enabled = true;
    keep_previous = false;
    stale_time = none;
  }

  unfoldable pub use_organizations_page_query :
      ListOrganizationsParams → Option ℕ → Option ℕ → QueryOptions W ResultPage
  use_organizations_page_query params page page_size = record {
    query_key =
        name "organizations-page"
        ∷ obj (defined (list_organizations_params params ++ paged page page_size))
        ∷ [];
    query_fn = list_organizations_page send params page page_size;
    enabled = true;
    keep_previous = true;
    stale_time = none;
  }

  unfoldable pub use_update_organization_mutation :
      Text → OrganizationPatch → MutationOptions W (Option Json)
  use_update_organization_mutation id input = record {
    mutation_fn = update_organization send id input;
    on_success = λ _. invalidated ("organizations" ∷ "organizations-page" ∷ []);
  }

  unfoldable pub use_suspend_organization_mutation : Text → MutationOptions W (Option Json)
  use_suspend_organization_mutation id = record {
    mutation_fn = suspend_organization send id;
    on_success = λ _. invalidated ("organizations" ∷ "organizations-page" ∷ []);
  }

  unfoldable pub use_delete_organization_mutation : Text → MutationOptions W (Unit {0})
  use_delete_organization_mutation id = record {
    mutation_fn = delete_organization send id;
    on_success = λ _. invalidated ("organizations" ∷ "organizations-page" ∷ []);
  }
