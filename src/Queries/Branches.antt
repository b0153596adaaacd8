-- ===== src/Queries/Branches.antt =====
-- frontend/lib/queries/branches.ts: its hooks, as the options that they hand to TanStack Query.
use mentorio.Prelude.{ℕ, true, false, Option, none, List, [], ◌∷◌, ◌++◌, String}
use mentorio.Prelude.Text.{Text}
use mentorio.Http.{HttpRequest, Response}
use mentorio.Json.{Json, obj, str, bool}
use mentorio.Client.Pages.{ResultPage}
use mentorio.Api.{given, defined}
use mentorio.Api.Branches.{
  BranchInput, BranchPatch, ListBranchesParams, create_branch, delete_branch, list_branches,
  list_branches_page, suspend_branch, update_branch,
}
use mentorio.Queries.{name, paged, QueryOptions, MutationOptions, invalidated}

-- The options as a JavaScript object.
unfoldable pub list_branches_params : ListBranchesParams → List (String × Option Json)
list_branches_params params =
    ("organization", given str params.organization)
    ∷ ("isActive", given bool params.is_active)
    ∷ ("search", given str params.search)
    ∷ []

module _ {W : Type 0} (send : HttpRequest → W → Option Response × W) where
  unfoldable pub use_branches_query : ListBranchesParams → QueryOptions W (List Json)
  use_branches_query params = record {
    query_key = name "branches" ∷ obj (defined (list_branches_params params)) ∷ [];
    query_fn = list_branches send params;
    enabled = true;
    keep_previous = false;
    stale_time = none;
  }

  unfoldable pub use_branches_page_query :
      ListBranchesParams → Option ℕ → Option ℕ → QueryOptions W ResultPage
  use_branches_page_query params page page_size = record {
    query_key =
        name "branches-page"
        ∷ obj (defined (list_branches_params params ++ paged page page_size))
        ∷ [];
    query_fn = list_branches_page send params page page_size;
    enabled = true;
    keep_previous = true;
    stale_time = none;
  }

  unfoldable pub use_create_branch_mutation : BranchInput → MutationOptions W (Option Json)
  use_create_branch_mutation input = record {
    mutation_fn = create_branch send input;
    on_success = λ _. invalidated ("branches" ∷ "branches-page" ∷ []);
  }

  unfoldable pub use_update_branch_mutation : Text → BranchPatch → MutationOptions W (Option Json)
  use_update_branch_mutation id input = record {
    mutation_fn = update_branch send id input;
    on_success = λ _. invalidated ("branches" ∷ "branches-page" ∷ []);
  }

  unfoldable pub use_suspend_branch_mutation : Text → MutationOptions W (Option Json)
  use_suspend_branch_mutation id = record {
    mutation_fn = suspend_branch send id;
    on_success = λ _. invalidated ("branches" ∷ "branches-page" ∷ []);
  }

  unfoldable pub use_delete_branch_mutation : Text → MutationOptions W (Unit {0})
  use_delete_branch_mutation id = record {
    mutation_fn = delete_branch send id;
    on_success = λ _. invalidated ("branches" ∷ "branches-page" ∷ []);
  }
