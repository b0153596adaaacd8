-- ===== src/Queries/Coherence/Kept.antt =====
-- What two hooks of frontend/lib/queries leave in the cache, although it has changed.
use mentorio.Prelude.{ℕ, Option, [], ◌∷◌, ◌++◌, ◌≡◌, refl, ◌∙◌}
use mentorio.Prelude.Text.{Text}
use mentorio.Http.{HttpRequest, Response}
use mentorio.Json.{Json, str, obj}
use mentorio.Api.Students.{UpdateStudentInput}
use mentorio.Api.Organizations.{ListOrganizationsParams}
use mentorio.Api.Plans.{SubscriptionPlanPatch}
use mentorio.Api.{defined}
use mentorio.Queries.{nullable_id, paged}
use mentorio.Queries.Students.{use_update_student_mutation}
use mentorio.Queries.Users.{use_user_query}
use mentorio.Queries.Billing.{use_update_subscription_plan_mutation}
use mentorio.Queries.Organizations.{list_organizations_params, use_organizations_page_query}
use mentorio.Queries.Coherence.Client.{QueryClient, run, run-invalidated_other}

module _ {W : Type 0} (send : HttpRequest → W → Option Response × W) (client : QueryClient) where
  open client use {Cache, serves, invalidate_queries_other}

  -- A changed student, whose account has been changed with them, leaves the cached account as it was: if
  -- the cache answers the query for it before, it does so afterwards.
  pub use_update_student_mutation-use_user_query :
      (profile_id : Text) (input : UpdateStudentInput) (answer : Option Json)
      (user_id : Option Text) (c : Cache)
      → serves
          (use_user_query send user_id).query_key
          (run client ((use_update_student_mutation send profile_id input).on_success answer) c)
        ≡ serves (use_user_query send user_id).query_key c
  unfolding use_update_student_mutation use_user_query run
  use_update_student_mutation-use_user_query profile_id input answer user_id c =
      invalidate_queries_other "student-parents" "user" (str profile_id ∷ [])
        (nullable_id user_id ∷ []) _ refl
      ∙ run-invalidated_other client "user" (nullable_id user_id ∷ [])
          ("students" ∷ "students-page" ∷ []) c (refl, (refl, tt))

  -- A changed subscription plan leaves the cached pages of the centers as they were.
  use_update_subscription_plan_mutation-use_organizations_page_query :
      (id : Text) (input : SubscriptionPlanPatch) (answer : Option Json)
      (params : ListOrganizationsParams) (page page_size : Option ℕ) (c : Cache)
      → serves
          (use_organizations_page_query send params page page_size).query_key
          (run client ((use_update_subscription_plan_mutation send id input).on_success answer) c)
        ≡ serves (use_organizations_page_query send params page page_size).query_key c
  unfolding use_update_subscription_plan_mutation use_organizations_page_query
  use_update_subscription_plan_mutation-use_organizations_page_query id input answer params page
        page_size c =
      run-invalidated_other client "organizations-page"
        (obj (defined (list_organizations_params params ++ paged page page_size)) ∷ [])
        ("subscription-plans" ∷ "organizations" ∷ []) c (refl, (refl, tt))
