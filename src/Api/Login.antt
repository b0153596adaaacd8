-- ===== src/Api/Login.antt =====
-- frontend/lib/api/auth.ts: signing in, and the start of a password reset.
use mentorio.Prelude.{String, Option, none, some, List, [], ◌∷◌}
use mentorio.Prelude.Text.{Text}
use mentorio.Http.{HttpRequest, Response}
use mentorio.Json.{Json, null, str, prop}
use mentorio.Client.{Call, ◌>>=◌, return, fail, malformed, api_fetch}
use mentorio.Api.{post, at}

-- The fields as the answer has them; `none` is undefined.
pub record AuthUser : Type 0 where
  pub id : Option Json
  pub login_id : Option Json
  pub full_name : Option Json
  pub organization_id : Option Json
  pub status : Option Json
  pub role : Option Json
  pub language : Option Json
  pub must_change_password : Option Json

unfoldable pub to_auth_user : Json → AuthUser
to_auth_user u = record {
  id = prop "id" u;
  login_id = prop "login_id" u;
  full_name = prop "full_name" u;
  organization_id = prop "organization_id" u;
  status = prop "status" u;
  role = prop "role" u;
  language = prop "language" u;
  must_change_password = prop "must_change_password" u;
}

-- The properties of undefined and of null cannot be read.
abbrev pub readable : {W : Type 0} → Option Json → Call W Json
readable none = fail malformed
readable (some null) = fail malformed
readable (some v) = return v

unfoldable pub login_body : Text → Text → List (String × Option Json)
login_body login_id password =
    ("login_id", some (str login_id)) ∷ ("password", some (str password)) ∷ []

pub record StartedPasswordReset : Type 0 where
  pub token : Option Json
  pub bot_url : Option Json
  pub expires_in_seconds : Option Json

unfoldable pub start_password_reset_body : Text → List (String × Option Json)
start_password_reset_body login_id = ("login_id", some (str login_id)) ∷ []

module _ {W : Type 0} (send : HttpRequest → W → Option Response × W) where
  unfoldable pub login : Text → Text → Call W AuthUser
  login login_id password = do
    answer ← api_fetch send (at "/api/v1/auth/login/") (post (login_body login_id password))
    envelope ← readable answer
    user ← readable (prop "user" envelope)
    return (to_auth_user user)

  unfoldable pub start_password_reset : Text → Call W StartedPasswordReset
  start_password_reset login_id = do
    answer ←
        api_fetch send (at "/api/v1/auth/password-reset/start/")
          (post (start_password_reset_body login_id))
    started ← readable answer
    return (record {
      token = prop "token" started;
      bot_url = prop "bot_url" started;
      expires_in_seconds = prop "expires_in_seconds" started;
    })
