-- ===== src/Api/Settings.antt =====
-- frontend/lib/api/settings.ts: the settings calls without a nested record.
use mentorio.Prelude.{String, Option, some, List, [], ◌∷◌}
use mentorio.Prelude.Text.{Text}
use mentorio.Http.{HttpRequest, Response, no_init}
use mentorio.Json.{Json, str}
use mentorio.Client.{Call, ◌>>=◌, return, api_fetch}
use mentorio.Api.{post, post_nothing, delete, at, item}

unfoldable pub create_api_key_body : Text → List (String × Option Json)
create_api_key_body name = ("name", some (str name)) ∷ []

module _ {W : Type 0} (send : HttpRequest → W → Option Response × W) where
  unfoldable pub get_platform_settings : Call W (Option Json)
  get_platform_settings = api_fetch send (at "/api/v1/settings/platform/") no_init

  unfoldable pub get_platform_branding : Call W (Option Json)
  get_platform_branding = api_fetch send (at "/api/v1/settings/platform/branding/") no_init

  unfoldable pub list_platform_backups : Call W (Option Json)
  list_platform_backups = api_fetch send (at "/api/v1/settings/backups/") no_init

  unfoldable pub run_platform_backup : Call W (Option Json)
  run_platform_backup = api_fetch send (at "/api/v1/settings/backups/") post_nothing

  unfoldable pub list_api_keys : Call W (Option Json)
  list_api_keys = api_fetch send (at "/api/v1/settings/api-keys/") no_init

  unfoldable pub create_api_key : Text → Call W (Option Json)
  create_api_key name =
      api_fetch send (at "/api/v1/settings/api-keys/") (post (create_api_key_body name))

  unfoldable pub rotate_api_key : Text → Call W (Option Json)
  rotate_api_key id = api_fetch send (item "/api/v1/settings/api-keys/" id "/rotate/") post_nothing

  unfoldable pub revoke_api_key : Text → Call W (Unit {0})
  revoke_api_key id =
      api_fetch send (item "/api/v1/settings/api-keys/" id "/") delete >>= λ _. return tt

  unfoldable pub get_my_region_settings : Call W (Option Json)
  get_my_region_settings = api_fetch send (at "/api/v1/settings/my-region/") no_init
