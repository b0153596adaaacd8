-- ===== src/Queries/Settings.antt =====
-- frontend/lib/queries/settings.ts: its hooks, as the options that they hand to TanStack Query.
use mentorio.Prelude.{true, false, Option, none, some, [], ◌∷◌}
use mentorio.Prelude.Text.{Text}
use mentorio.Http.{HttpRequest, Response}
use mentorio.Json.{Json}
use mentorio.Api.Settings.{
  create_api_key, get_my_region_settings, get_platform_branding, get_platform_settings,
  list_api_keys, list_platform_backups, revoke_api_key, rotate_api_key, run_platform_backup,
}
use mentorio.Queries.{name, QueryOptions, MutationOptions, invalidated}

module _ {W : Type 0} (send : HttpRequest → W → Option Response × W) where
  unfoldable pub use_platform_settings_query : QueryOptions W (Option Json)
  use_platform_settings_query = record {
    query_key = name "platform-settings" ∷ [];
    query_fn = get_platform_settings send;
    enabled = true;
    keep_previous = false;
    stale_time = none;
  }

  unfoldable pub use_platform_branding_query : QueryOptions W (Option Json)
  use_platform_branding_query = record {
    query_key = name "platform-branding" ∷ [];
    query_fn = get_platform_branding send;
    enabled = true;
    keep_previous = false;
    stale_time = some 300000;
  }

  unfoldable pub use_platform_backups_query : QueryOptions W (Option Json)
  use_platform_backups_query = record {
    query_key = name "platform-backups" ∷ [];
    query_fn = list_platform_backups send;
    enabled = true;
    keep_previous = false;
    stale_time = none;
  }

  unfoldable pub use_run_platform_backup_mutation : MutationOptions W (Option Json)
  use_run_platform_backup_mutation = record {
    mutation_fn = run_platform_backup send;
    on_success = λ _. invalidated ("platform-backups" ∷ []);
  }

  unfoldable pub use_api_keys_query : QueryOptions W (Option Json)
  use_api_keys_query = record {
    query_key = name "api-keys" ∷ [];
    query_fn = list_api_keys send;
    enabled = true;
    keep_previous = false;
    stale_time = none;
  }

  unfoldable pub use_create_api_key_mutation : Text → MutationOptions W (Option Json)
  use_create_api_key_mutation label = record {
    mutation_fn = create_api_key send label;
    on_success = λ _. invalidated ("api-keys" ∷ []);
  }

  unfoldable pub use_rotate_api_key_mutation : Text → MutationOptions W (Option Json)
  use_rotate_api_key_mutation id = record {
    mutation_fn = rotate_api_key send id;
    on_success = λ _. invalidated ("api-keys" ∷ []);
  }

  unfoldable pub use_revoke_api_key_mutation : Text → MutationOptions W (Unit {0})
  use_revoke_api_key_mutation id = record {
    mutation_fn = revoke_api_key send id;
    on_success = λ _. invalidated ("api-keys" ∷ []);
  }

  unfoldable pub use_my_region_settings_query : QueryOptions W (Option Json)
  use_my_region_settings_query = record {
    query_key = name "my-region-settings" ∷ [];
    query_fn = get_my_region_settings send;
    enabled = true;
    keep_previous = false;
    stale_time = some 300000;
  }
