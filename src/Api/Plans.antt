-- ===== src/Api/Plans.antt =====
-- frontend/lib/api/billing.ts: the subscription plans.
use mentorio.Prelude.{String, Option, some, List, [], ◌∷◌, Bool}
use mentorio.Prelude.Text.{Text, codes}
use mentorio.Http.{Query, HttpRequest, Response}
use mentorio.Json.{Json, str, num, bool, Decimal}
use mentorio.Client.{Call, api_fetch}
use mentorio.Client.Pages.{fetch_all_pages}
use mentorio.Api.{set_if, arr_texts, set_bool, given, post, patch, at, item}

pub record ListSubscriptionPlansParams : Type 0 where
  pub is_active : Option Bool
  pub billing_cycle : Option Text
  pub search : Option Text

unfoldable pub subscription_plans_query : ListSubscriptionPlansParams → Query
subscription_plans_query params =
    set_if "search" params.search
      (set_if "billing_cycle" params.billing_cycle (set_bool "is_active" params.is_active []))

pub record SubscriptionPlanPatch : Type 0 where
  pub name : Option Text
  pub slug : Option Text
  pub price : Option Decimal
  pub billing_cycle : Option Text
  pub max_branches : Option Decimal
  pub max_students : Option Decimal
  pub max_teachers : Option Decimal
  pub features : Option (List Text)
  pub is_active : Option Bool
  pub display_order : Option Decimal

unfoldable pub to_body : SubscriptionPlanPatch → List (String × Option Json)
to_body input =
    ("name", given str input.name)
    ∷ ("slug", given str input.slug)
    ∷ ("price", given num input.price)
    ∷ ("billing_cycle", given str input.billing_cycle)
    ∷ ("max_branches", given num input.max_branches)
    ∷ ("max_students", given num input.max_students)
    ∷ ("max_teachers", given num input.max_teachers)
    ∷ ("features", given arr_texts input.features)
    ∷ ("is_active", given bool input.is_active)
    ∷ ("display_order", given num input.display_order)
    ∷ []

pub record SubscriptionPlanInput : Type 0 where
  pub name : Text
  pub slug : Text
  pub price : Decimal
  pub billing_cycle : Text
  pub max_branches : Decimal
  pub max_students : Decimal
  pub max_teachers : Decimal
  pub features : List Text
  pub is_active : Option Bool
  pub display_order : Option Decimal

-- All fields given.
unfoldable pub partial : SubscriptionPlanInput → SubscriptionPlanPatch
partial input = record {
  name = some input.name;
  slug = some input.slug;
  price = some input.price;
  billing_cycle = some input.billing_cycle;
  max_branches = some input.max_branches;
  max_students = some input.max_students;
  max_teachers = some input.max_teachers;
  features = some input.features;
  is_active = input.is_active;
  display_order = input.display_order;
}

module _ {W : Type 0} (send : HttpRequest → W → Option Response × W) where
  unfoldable pub list_subscription_plans : ListSubscriptionPlansParams → Call W (List Json)
  list_subscription_plans params =
      fetch_all_pages send (codes "/api/v1/billing/subscription-plans/")
        (subscription_plans_query params)

  unfoldable pub create_subscription_plan : SubscriptionPlanInput → Call W (Option Json)
  create_subscription_plan input =
      api_fetch send (at "/api/v1/billing/subscription-plans/") (post (to_body (partial input)))

  unfoldable pub update_subscription_plan : Text → SubscriptionPlanPatch → Call W (Option Json)
  update_subscription_plan id input =
      api_fetch send (item "/api/v1/billing/subscription-plans/" id "/") (patch (to_body input))
