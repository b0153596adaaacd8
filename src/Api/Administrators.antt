-- ===== src/Api/Administrators.antt =====
-- frontend/lib/api/administrators.ts: administrators.
use mentorio.Prelude.{ℕ, String, Option, some, List, [], ◌∷◌}
use mentorio.Prelude.Text.{Text, codes}
use mentorio.Http.{Query, HttpRequest, Response}
use mentorio.Json.{Json, str}
use mentorio.Client.{Call, ◌>>=◌, return, api_fetch}
use mentorio.Client.Pages.{ResultPage, fetch_page, fetch_all_pages}
use mentorio.Api.{
  set_if, or_null, text_or_null, truthy_text, or_default, arr_texts, given, post, patch,
  post_nothing, delete, at, item,
}

pub record ListAdministratorsParams : Type 0 where
  pub organization : Option Text
  pub branch : Option Text
  pub status : Option Text
  pub search : Option Text

unfoldable pub administrators_query : ListAdministratorsParams → Query
administrators_query params = set_if "search" params.search (
    set_if "status" params.status (
      set_if "branch" params.branch
        (set_if "organization" params.organization (("role", codes "center_admin") ∷ []))))

unfoldable pub administrators_page_query : ListAdministratorsParams → Query
administrators_page_query params = set_if "search" params.search (
    set_if "status" params.status (
      set_if "branch" params.branch
        (set_if "organization" params.organization (("role", codes "center_admin") ∷ []))))

pub record AdministratorInput : Type 0 where
  pub organization : Text
  pub branch : Option Text
  pub first_name : Text
  pub last_name : Text
  pub phone : Text
  pub password : Option Text
  pub status : Option Text
  pub role_id : Text

unfoldable pub create_administrator_body : AdministratorInput → List (String × Option Json)
create_administrator_body input =
    ("organization", some (str input.organization))
    ∷ ("branch", some (or_null input.branch))
    ∷ ("first_name", some (str input.first_name))
    ∷ ("last_name", some (str input.last_name))
    ∷ ("phone", some (str input.phone))
    ∷ ("password", given str input.password)
    ∷ ("status", some (str (or_default (codes "active") input.status)))
    ∷ ("role_ids", some (arr_texts (input.role_id ∷ [])))
    ∷ []

pub record AdministratorPatch : Type 0 where
  pub organization : Option Text
  pub branch : Option Text
  pub first_name : Option Text
  pub last_name : Option Text
  pub phone : Option Text
  pub password : Option Text
  pub status : Option Text
  pub role_id : Option Text

unfoldable pub update_administrator_body : AdministratorPatch → List (String × Option Json)
update_administrator_body input =
    ("first_name", given str input.first_name)
    ∷ ("last_name", given str input.last_name)
    ∷ ("phone", given str input.phone)
    ∷ ("branch", given text_or_null input.branch)
    ∷ ("password", given str (truthy_text input.password))
    ∷ ("role_ids", given (λ t. arr_texts (t ∷ [])) input.role_id)
    ∷ []

module _ {W : Type 0} (send : HttpRequest → W → Option Response × W) where
  unfoldable pub list_administrators : ListAdministratorsParams → Call W (List Json)
  list_administrators params =
      fetch_all_pages send (codes "/api/v1/users/") (administrators_query params)

  unfoldable pub list_administrators_page :
      ListAdministratorsParams → Option ℕ → Option ℕ → Call W ResultPage
  list_administrators_page params page page_size =
      fetch_page send (codes "/api/v1/users/") (administrators_page_query params)
        (or_default 1 page) (or_default 20 page_size)

  unfoldable pub create_administrator : AdministratorInput → Call W (Option Json)
  create_administrator input =
      api_fetch send (at "/api/v1/users/") (post (create_administrator_body input))

  unfoldable pub update_administrator : Text → AdministratorPatch → Call W (Option Json)
  update_administrator id input =
      api_fetch send (item "/api/v1/users/" id "/") (patch (update_administrator_body input))

  unfoldable pub suspend_administrator : Text → Call W (Option Json)
  suspend_administrator id = api_fetch send (item "/api/v1/users/" id "/suspend/") post_nothing

  unfoldable pub delete_administrator : Text → Call W (Unit {0})
  delete_administrator id = api_fetch send (item "/api/v1/users/" id "/") delete >>= λ _. return tt
