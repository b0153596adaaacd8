-- ===== src/Queries/Administrators.antt =====
-- frontend/lib/queries/administrators.ts: its hooks, as the options that they hand to TanStack Query.
use mentorio.Prelude.{ℕ, true, false, Option, none, List, [], ◌∷◌, ◌++◌, String}
use mentorio.Prelude.Text.{Text}
use mentorio.Http.{HttpRequest, Response}
use mentorio.Json.{Json, obj, str}
use mentorio.Client.Pages.{ResultPage}
use mentorio.Api.{given, defined}
use mentorio.Api.Administrators.{
  AdministratorInput, AdministratorPatch, ListAdministratorsParams, create_administrator,
  delete_administrator, list_administrators, list_administrators_page, suspend_administrator,
  update_administrator,
}
use mentorio.Queries.{name, paged, QueryOptions, MutationOptions, invalidated}

-- The options as a JavaScript object.
unfoldable pub list_administrators_params : ListAdministratorsParams → List (String × Option Json)
list_administrators_params params =
    ("organization", given str params.organization)
    ∷ ("branch", given str params.branch)
    ∷ ("status", given str params.status)
    ∷ ("search", given str params.search)
    ∷ []

module _ {W : Type 0} (send : HttpRequest → W → Option Response × W) where
  unfoldable pub use_administrators_query : ListAdministratorsParams → QueryOptions W (List Json)
  use_administrators_query params = record {
    query_key = name "administrators" ∷ obj (defined (list_administrators_params params)) ∷ [];
    query_fn = list_administrators send params;
    enabled = true;
    keep_previous = false;
    stale_time = none;
  }

  unfoldable pub use_administrators_page_query :
      ListAdministratorsParams → Option ℕ → Option ℕ → QueryOptions W ResultPage
  use_administrators_page_query params page page_size = record {
    query_key =
        name "administrators-page"
        ∷ obj (defined (list_administrators_params params ++ paged page page_size))
        ∷ [];
    query_fn = list_administrators_page send params page page_size;
    enabled = true;
    keep_previous = true;
    stale_time = none;
  }

  unfoldable pub use_create_administrator_mutation :
      AdministratorInput → MutationOptions W (Option Json)
  use_create_administrator_mutation input = record {
    mutation_fn = create_administrator send input;
    on_success = λ _. invalidated ("administrators" ∷ "administrators-page" ∷ []);
  }

  unfoldable pub use_update_administrator_mutation :
      Text → AdministratorPatch → MutationOptions W (Option Json)
  use_update_administrator_mutation id input = record {
    mutation_fn = update_administrator send id input;
    on_success = λ _. invalidated ("administrators" ∷ "administrators-page" ∷ []);
  }

  unfoldable pub use_suspend_administrator_mutation : Text → MutationOptions W (Option Json)
  use_suspend_administrator_mutation id = record {
    mutation_fn = suspend_administrator send id;
    on_success = λ _. invalidated ("administrators" ∷ "administrators-page" ∷ []);
  }

  unfoldable pub use_delete_administrator_mutation : Text → MutationOptions W (Unit {0})
  use_delete_administrator_mutation id = record {
    mutation_fn = delete_administrator send id;
    on_success = λ _. invalidated ("administrators" ∷ "administrators-page" ∷ []);
  }
