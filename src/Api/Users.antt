-- ===== src/Api/Users.antt =====
-- frontend/lib/api/users.ts: users.
use mentorio.Json.{opt_prop}
use mentorio.Api.{post_nothing}
use mentorio.Prelude.{String, Option, some, List, [], ◌∷◌}
use mentorio.Prelude.Text.{Text}
use mentorio.Http.{HttpRequest, Response, no_init}
use mentorio.Json.{Json, str}
use mentorio.Client.{from_option, malformed, Call, ◌>>=◌, return, api_fetch}
use mentorio.Api.{given, patch, item}

pub record UpdateSelfInput : Type 0 where
  pub first_name : Option Text
  pub last_name : Option Text
  pub phone : Option Text
  pub gender : Option Text
  pub avatar_url : Option Text

unfoldable pub update_self_body : UpdateSelfInput → List (String × Option Json)
update_self_body input =
    ("first_name", given str input.first_name)
    ∷ ("last_name", given str input.last_name)
    ∷ ("phone", given str input.phone)
    ∷ ("gender", given str input.gender)
    ∷ ("avatar_url", given str input.avatar_url)
    ∷ []

unfoldable pub change_password_body : Text → Text → List (String × Option Json)
change_password_body current_password new_password =
    ("password", some (str new_password)) ∷ ("current_password", some (str current_password)) ∷ []

module _ {W : Type 0} (send : HttpRequest → W → Option Response × W) where
  unfoldable pub get_user : Text → Call W (Option Json)
  get_user user_id = api_fetch send (item "/api/v1/users/" user_id "/") no_init

  unfoldable pub update_self : Text → UpdateSelfInput → Call W (Option Json)
  update_self user_id input =
      api_fetch send (item "/api/v1/users/" user_id "/") (patch (update_self_body input))

  unfoldable pub change_password : Text → Text → Text → Call W (Unit {0})
  change_password user_id current_password new_password =
      api_fetch send (item "/api/v1/users/" user_id "/")
        (patch (change_password_body current_password new_password))
      >>= λ _. return tt

  -- `data.temporary_password`, which an answer on the declared form has.
  unfoldable pub reset_user_password : Text → Call W Json
  reset_user_password user_id = do
    data_of ← api_fetch send (item "/api/v1/users/" user_id "/reset-password/") post_nothing
    from_option malformed (opt_prop "temporary_password" data_of)
