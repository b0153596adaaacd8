-- ===== src/Api/Organizations.antt =====
-- frontend/lib/api/organizations.ts: centers, but for creating one, whose slug is made from the clock.
use mentorio.Prelude.{ℕ, String, Option, List, [], ◌∷◌}
use mentorio.Prelude.Text.{Text, codes}
use mentorio.Http.{Query, HttpRequest, Response}
use mentorio.Json.{Json, str, num, Decimal}
use mentorio.Client.{Call, ◌>>=◌, return, api_fetch}
use mentorio.Client.Pages.{ResultPage, fetch_page, fetch_all_pages}
use mentorio.Api.{
  set_if, text_or_null, truthy_text, or_default, Nullable, nullable, given, patch, post_nothing,
  delete, item,
}

pub record ListOrganizationsParams : Type 0 where
  pub status : Option Text
  pub subscription_plan : Option Text
  pub country : Option Text
  pub search : Option Text

unfoldable pub organizations_query : ListOrganizationsParams → Query
organizations_query params = set_if "search" params.search (
    set_if "country" params.country
      (set_if "subscription_plan" params.subscription_plan (set_if "status" params.status [])))

unfoldable pub organizations_page_query : ListOrganizationsParams → Query
organizations_page_query params = set_if "search" params.search (
    set_if "country" params.country
      (set_if "subscription_plan" params.subscription_plan (set_if "status" params.status [])))

pub record OrganizationPatch : Type 0 where
  pub name : Option Text
  pub email : Option Text
  pub city : Option Text
  pub country : Option Text
  pub status : Option Text
  pub subscription_plan : Option Nullable
  pub max_students : Option Decimal
  pub max_teachers : Option Decimal
  pub max_branches : Option Decimal

unfoldable pub to_body : OrganizationPatch → List (String × Option Json)
to_body input =
    ("name", given str input.name)
    ∷ ("email", given str input.email)
    ∷ ("city", given text_or_null input.city)
    ∷ ("country", given str (truthy_text input.country))
    ∷ ("status", given str input.status)
    ∷ ("subscription_plan", given nullable input.subscription_plan)
    ∷ ("max_students", given num input.max_students)
    ∷ ("max_teachers", given num input.max_teachers)
    ∷ ("max_branches", given num input.max_branches)
    ∷ []

module _ {W : Type 0} (send : HttpRequest → W → Option Response × W) where
  unfoldable pub list_organizations : ListOrganizationsParams → Call W (List Json)
  list_organizations params =
      fetch_all_pages send (codes "/api/v1/organizations/") (organizations_query params)

  unfoldable pub list_organizations_page :
      ListOrganizationsParams → Option ℕ → Option ℕ → Call W ResultPage
  list_organizations_page params page page_size =
      fetch_page send (codes "/api/v1/organizations/") (organizations_page_query params)
        (or_default 1 page) (or_default 20 page_size)

  unfoldable pub update_organization : Text → OrganizationPatch → Call W (Option Json)
  update_organization id input =
      api_fetch send (item "/api/v1/organizations/" id "/") (patch (to_body input))

  unfoldable pub suspend_organization : Text → Call W (Option Json)
  suspend_organization id =
      api_fetch send (item "/api/v1/organizations/" id "/suspend/") post_nothing

  unfoldable pub delete_organization : Text → Call W (Unit {0})
  delete_organization id =
      api_fetch send (item "/api/v1/organizations/" id "/") delete >>= λ _. return tt
