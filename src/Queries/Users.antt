-- ===== src/Queries/Users.antt =====
-- frontend/lib/queries/users.ts: its hooks, as the options that they hand to TanStack Query.
use mentorio.Prelude.{false, Option, none, [], ◌∷◌}
use mentorio.Prelude.Text.{Text}
use mentorio.Http.{HttpRequest, Response}
use mentorio.Json.{Json, str}
use mentorio.Api.Users.{
  UpdateSelfInput, change_password, get_user, reset_user_password, update_self,
}
use mentorio.Queries.{
  name, nullable_id, id_or_null, is_given, QueryOptions, MutationOptions, invalidate,
}

module _ {W : Type 0} (send : HttpRequest → W → Option Response × W) where
  unfoldable pub use_user_query : Option Text → QueryOptions W (Option Json)
  use_user_query user_id = record {
    query_key = name "user" ∷ nullable_id user_id ∷ [];
    query_fn = get_user send (id_or_null user_id);
    enabled = is_given user_id;
    keep_previous = false;
    stale_time = none;
  }

  unfoldable pub use_update_self_mutation : Text → UpdateSelfInput → MutationOptions W (Option Json)
  use_update_self_mutation user_id input = record {
    mutation_fn = update_self send user_id input;
    on_success = λ _. invalidate (name "user" ∷ str user_id ∷ []) ∷ [];
  }

  unfoldable pub use_change_password_mutation : Text → Text → Text → MutationOptions W (Unit {0})
  use_change_password_mutation user_id current_password new_password = record {
    mutation_fn = change_password send user_id current_password new_password;
    on_success = λ _. [];
  }

  unfoldable pub use_reset_user_password_mutation : Text → MutationOptions W Json
  use_reset_user_password_mutation user_id = record {
    mutation_fn = reset_user_password send user_id;
    on_success = λ _. [];
  }
