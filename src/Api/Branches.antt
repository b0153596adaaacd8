-- ===== src/Api/Branches.antt =====
-- frontend/lib/api/branches.ts: branches.
use mentorio.Prelude.{ℕ, String, Option, some, List, [], ◌∷◌, Bool}
use mentorio.Prelude.Text.{Text, codes}
use mentorio.Http.{Query, HttpRequest, Response}
use mentorio.Json.{Json, str}
use mentorio.Client.{Call, ◌>>=◌, return, api_fetch}
use mentorio.Client.Pages.{ResultPage, fetch_page, fetch_all_pages}
use mentorio.Api.{
  set_if, text_or_null, or_default, set_bool, given, post, patch, post_nothing, delete, at, item,
}

pub record ListBranchesParams : Type 0 where
  pub organization : Option Text
  pub is_active : Option Bool
  pub search : Option Text

unfoldable pub branches_query : ListBranchesParams → Query
branches_query params =
    set_if "search" params.search
      (set_bool "is_active" params.is_active (set_if "organization" params.organization []))

unfoldable pub branches_page_query : ListBranchesParams → Query
branches_page_query params =
    set_if "search" params.search
      (set_bool "is_active" params.is_active (set_if "organization" params.organization []))

pub record BranchPatch : Type 0 where
  pub organization : Option Text
  pub name : Option Text
  pub code : Option Text
  pub phone : Option Text
  pub email : Option Text
  pub city : Option Text

unfoldable pub to_body : BranchPatch → List (String × Option Json)
to_body input =
    ("organization", given str input.organization)
    ∷ ("name", given str input.name)
    ∷ ("code", given text_or_null input.code)
    ∷ ("phone", given text_or_null input.phone)
    ∷ ("email", given text_or_null input.email)
    ∷ ("city", given text_or_null input.city)
    ∷ []

pub record BranchInput : Type 0 where
  pub organization : Text
  pub name : Text
  pub code : Option Text
  pub phone : Option Text
  pub email : Option Text
  pub city : Option Text

-- All fields given.
unfoldable pub partial : BranchInput → BranchPatch
partial input = record {
  organization = some input.organization;
  name = some input.name;
  code = input.code;
  phone = input.phone;
  email = input.email;
  city = input.city;
}

module _ {W : Type 0} (send : HttpRequest → W → Option Response × W) where
  unfoldable pub list_branches : ListBranchesParams → Call W (List Json)
  list_branches params = fetch_all_pages send (codes "/api/v1/branches/") (branches_query params)

  unfoldable pub list_branches_page : ListBranchesParams → Option ℕ → Option ℕ → Call W ResultPage
  list_branches_page params page page_size =
      fetch_page send (codes "/api/v1/branches/") (branches_page_query params) (or_default 1 page)
        (or_default 20 page_size)

  unfoldable pub create_branch : BranchInput → Call W (Option Json)
  create_branch input = api_fetch send (at "/api/v1/branches/") (post (to_body (partial input)))

  unfoldable pub update_branch : Text → BranchPatch → Call W (Option Json)
  update_branch id input = api_fetch send (item "/api/v1/branches/" id "/") (patch (to_body input))

  unfoldable pub suspend_branch : Text → Call W (Option Json)
  suspend_branch id = api_fetch send (item "/api/v1/branches/" id "/suspend/") post_nothing

  unfoldable pub delete_branch : Text → Call W (Unit {0})
  delete_branch id = api_fetch send (item "/api/v1/branches/" id "/") delete >>= λ _. return tt
