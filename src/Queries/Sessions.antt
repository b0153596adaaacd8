-- ===== src/Queries/Sessions.antt =====
-- frontend/lib/queries/auth.ts: its hooks, as the options that they hand to TanStack Query.
use mentorio.Prelude.{true, false, Option, none, [], ◌∷◌}
use mentorio.Prelude.Text.{Text}
use mentorio.Http.{HttpRequest, Response}
use mentorio.Json.{Json}
use mentorio.Api.Auth.{get_sessions, revoke_session}
use mentorio.Queries.{name, QueryOptions, MutationOptions, invalidated}

module _ {W : Type 0} (send : HttpRequest → W → Option Response × W) where
  unfoldable pub use_sessions_query : QueryOptions W (Option Json)
  use_sessions_query = record {
    query_key = name "sessions" ∷ [];
    query_fn = get_sessions send;
    enabled = true;
    keep_previous = false;
    stale_time = none;
  }

  unfoldable pub use_revoke_session_mutation : Text → MutationOptions W (Unit {0})
  use_revoke_session_mutation session_id = record {
    mutation_fn = revoke_session send session_id;
    on_success = λ _. invalidated ("sessions" ∷ []);
  }
