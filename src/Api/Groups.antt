-- ===== src/Api/Groups.antt =====
-- frontend/lib/api/groups.ts: groups and their members.
use mentorio.Prelude.{ℕ, String, Option, some, List, [], ◌∷◌, Bool, true}
use mentorio.Prelude.Text.{Text, codes}
use mentorio.Http.{Query, HttpRequest, Response}
use mentorio.Json.{Json, str, num, bool, Decimal}
use mentorio.Client.{Call, ◌>>=◌, return, api_fetch}
use mentorio.Client.Pages.{ResultPage, fetch_page, fetch_all_pages}
use mentorio.Api.{
  set_if, or_null, text_or_null, or_default, arr_texts, given, post, patch, delete, at, item,
}

pub record ListGroupsParams : Type 0 where
  pub organization_id : Text
  pub course : Option Text
  pub teacher : Option Text
  pub status : Option Text
  pub search : Option Text

unfoldable pub groups_query : ListGroupsParams → Query
groups_query params = set_if "search" params.search (
    set_if "status" params.status (
      set_if "teacher" params.teacher
        (set_if "course" params.course (("organization", params.organization_id) ∷ []))))

unfoldable pub groups_page_query : ListGroupsParams → Query
groups_page_query params = set_if "search" params.search (
    set_if "status" params.status (
      set_if "teacher" params.teacher
        (set_if "course" params.course (("organization", params.organization_id) ∷ []))))

unfoldable pub group_members_query : Text → Query
group_members_query group_id = ("group", group_id) ∷ []

unfoldable pub student_group_memberships_query : Text → Query
student_group_memberships_query student_profile_id = ("student_profile", student_profile_id) ∷ []

pub record GroupInput : Type 0 where
  pub organization_id : Text
  pub course : Text
  pub teacher : Text
  pub name : Text
  pub status : Text
  pub max_students : Decimal
  pub start_date : Text
  pub end_date : Option Text
  pub room : Text
  pub days_of_week : List Text
  pub start_time : Text
  pub end_time : Text
  pub price : Decimal
  pub billing_day : Decimal

unfoldable pub create_group_body : GroupInput → List (String × Option Json)
create_group_body input =
    ("organization", some (str input.organization_id))
    ∷ ("course", some (str input.course))
    ∷ ("teacher", some (str input.teacher))
    ∷ ("name", some (str input.name))
    ∷ ("status", some (str input.status))
    ∷ ("max_students", some (num input.max_students))
    ∷ ("start_date", some (str input.start_date))
    ∷ ("end_date", some (or_null input.end_date))
    ∷ ("room", some (str input.room))
    ∷ ("days_of_week", some (arr_texts input.days_of_week))
    ∷ ("start_time", some (str input.start_time))
    ∷ ("end_time", some (str input.end_time))
    ∷ ("price", some (num input.price))
    ∷ ("billing_day", some (num input.billing_day))
    ∷ []

pub record GroupPatch : Type 0 where
  pub organization_id : Option Text
  pub course : Option Text
  pub teacher : Option Text
  pub name : Option Text
  pub status : Option Text
  pub max_students : Option Decimal
  pub start_date : Option Text
  pub end_date : Option Text
  pub room : Option Text
  pub days_of_week : Option (List Text)
  pub start_time : Option Text
  pub end_time : Option Text
  pub price : Option Decimal
  pub billing_day : Option Decimal

unfoldable pub update_group_body : GroupPatch → List (String × Option Json)
update_group_body input =
    ("course", given str input.course)
    ∷ ("teacher", given str input.teacher)
    ∷ ("name", given str input.name)
    ∷ ("status", given str input.status)
    ∷ ("max_students", given num input.max_students)
    ∷ ("start_date", given str input.start_date)
    ∷ ("end_date", given text_or_null input.end_date)
    ∷ ("room", given str input.room)
    ∷ ("days_of_week", given arr_texts input.days_of_week)
    ∷ ("start_time", given str input.start_time)
    ∷ ("end_time", given str input.end_time)
    ∷ ("price", given num input.price)
    ∷ ("billing_day", given num input.billing_day)
    ∷ []

pub record AddGroupMemberInput : Type 0 where
  pub organization_id : Text
  pub group_id : Text
  pub student_profile_id : Text
  pub create_invoice : Option Bool

unfoldable pub add_group_member_body : AddGroupMemberInput → List (String × Option Json)
add_group_member_body input =
    ("organization", some (str input.organization_id))
    ∷ ("group", some (str input.group_id))
    ∷ ("student_profile", some (str input.student_profile_id))
    ∷ ("create_invoice", some (bool (or_default true input.create_invoice)))
    ∷ []

module _ {W : Type 0} (send : HttpRequest → W → Option Response × W) where
  unfoldable pub list_groups : ListGroupsParams → Call W (List Json)
  list_groups params = fetch_all_pages send (codes "/api/v1/groups/") (groups_query params)

  unfoldable pub list_groups_page : ListGroupsParams → Option ℕ → Option ℕ → Call W ResultPage
  list_groups_page params page page_size =
      fetch_page send (codes "/api/v1/groups/") (groups_page_query params) (or_default 1 page)
        (or_default 20 page_size)

  unfoldable pub get_group_members : Text → Call W (List Json)
  get_group_members group_id =
      fetch_all_pages send (codes "/api/v1/groups/members/") (group_members_query group_id)

  unfoldable pub get_student_group_memberships : Text → Call W (List Json)
  get_student_group_memberships student_profile_id =
      fetch_all_pages send (codes "/api/v1/groups/members/")
        (student_group_memberships_query student_profile_id)

  unfoldable pub get_my_group_memberships : Call W (List Json)
  get_my_group_memberships = fetch_all_pages send (codes "/api/v1/groups/members/") []

  unfoldable pub create_group : GroupInput → Call W (Option Json)
  create_group input = api_fetch send (at "/api/v1/groups/") (post (create_group_body input))

  unfoldable pub update_group : Text → GroupPatch → Call W (Option Json)
  update_group group_id input =
      api_fetch send (item "/api/v1/groups/" group_id "/") (patch (update_group_body input))

  unfoldable pub delete_group : Text → Call W (Unit {0})
  delete_group group_id =
      api_fetch send (item "/api/v1/groups/" group_id "/") delete >>= λ _. return tt

  unfoldable pub add_group_member : AddGroupMemberInput → Call W (Option Json)
  add_group_member input =
      api_fetch send (at "/api/v1/groups/members/") (post (add_group_member_body input))

  unfoldable pub remove_group_member : Text → Call W (Unit {0})
  remove_group_member member_id =
      api_fetch send (item "/api/v1/groups/members/" member_id "/") delete >>= λ _. return tt
