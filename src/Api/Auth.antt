-- ===== src/Api/Auth.antt =====
-- frontend/lib/api/auth.ts: sessions and the reset of a password.
use mentorio.Prelude.{String, Option, some, List, [], ◌∷◌}
use mentorio.Prelude.Text.{Text}
use mentorio.Http.{HttpRequest, Response, no_init}
use mentorio.Json.{Json, str}
use mentorio.Client.{Call, ◌>>=◌, return, api_fetch}
use mentorio.Api.{post, post_nothing, at, item}

unfoldable pub confirm_password_reset_body : Text → Text → Text → List (String × Option Json)
confirm_password_reset_body token code new_password =
    ("token", some (str token))
    ∷ ("code", some (str code))
    ∷ ("new_password", some (str new_password))
    ∷ []

module _ {W : Type 0} (send : HttpRequest → W → Option Response × W) where
  unfoldable pub logout : Call W (Unit {0})
  logout = api_fetch send (at "/api/v1/auth/logout/") post_nothing >>= λ _. return tt

  unfoldable pub refresh_session : Call W (Unit {0})
  refresh_session = api_fetch send (at "/api/v1/auth/refresh/") post_nothing >>= λ _. return tt

  unfoldable pub get_sessions : Call W (Option Json)
  get_sessions = api_fetch send (at "/api/v1/auth/sessions/") no_init

  unfoldable pub revoke_session : Text → Call W (Unit {0})
  revoke_session session_id =
      api_fetch send (item "/api/v1/auth/sessions/" session_id "/revoke/") post_nothing >>= λ _.
      return tt

  unfoldable pub confirm_password_reset : Text → Text → Text → Call W (Unit {0})
  confirm_password_reset token code new_password =
      api_fetch send (at "/api/v1/auth/password-reset/confirm/")
        (post (confirm_password_reset_body token code new_password))
      >>= λ _. return tt
