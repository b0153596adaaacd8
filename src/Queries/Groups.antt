-- ===== src/Queries/Groups.antt =====
-- frontend/lib/queries/groups.ts: its hooks, as the options that they hand to TanStack Query.
use mentorio.Prelude.{ℕ, true, false, Option, none, some, List, [], ◌∷◌, ◌++◌, String}
use mentorio.Prelude.Text.{Text}
use mentorio.Http.{HttpRequest, Response}
use mentorio.Json.{Json, obj, str}
use mentorio.Client.Pages.{ResultPage}
use mentorio.Api.{given, defined}
use mentorio.Api.Groups.{
  AddGroupMemberInput, GroupInput, GroupPatch, ListGroupsParams, add_group_member, create_group,
  delete_group, get_group_members, get_my_group_memberships, get_student_group_memberships,
  list_groups, list_groups_page, remove_group_member, update_group,
}
use mentorio.Queries.{
  name, nullable_id, id_or_null, is_text, is_given, paged, QueryOptions, MutationOptions,
  invalidated,
}

-- The options as a JavaScript object.
unfoldable pub list_groups_params : ListGroupsParams → List (String × Option Json)
list_groups_params params =
    ("organizationId", some (str params.organization_id))
    ∷ ("course", given str params.course)
    ∷ ("teacher", given str params.teacher)
    ∷ ("status", given str params.status)
    ∷ ("search", given str params.search)
    ∷ []

-- The answers of several queries in one list, in order: a query without data adds nothing.
unfoldable pub gathered : List (Option (List Json)) → List Json
gathered [] = []
gathered (none ∷ results) = gathered results
gathered (some rows ∷ results) = rows ++ gathered results

module _ {W : Type 0} (send : HttpRequest → W → Option Response × W) where
  unfoldable pub use_groups_query : ListGroupsParams → QueryOptions W (List Json)
  use_groups_query params = record {
    query_key = name "groups" ∷ obj (defined (list_groups_params params)) ∷ [];
    query_fn = list_groups send params;
    enabled = true;
    keep_previous = false;
    stale_time = none;
  }

  unfoldable pub use_groups_page_query :
      ListGroupsParams → Option ℕ → Option ℕ → QueryOptions W ResultPage
  use_groups_page_query params page page_size = record {
    query_key =
        name "groups-page" ∷ obj (defined (list_groups_params params ++ paged page page_size)) ∷ [];
    query_fn = list_groups_page send params page page_size;
    enabled = true;
    keep_previous = true;
    stale_time = none;
  }

  unfoldable pub use_group_members_query : Option Text → QueryOptions W (List Json)
  use_group_members_query group_id = record {
    query_key = name "group-members" ∷ nullable_id group_id ∷ [];
    query_fn = get_group_members send (id_or_null group_id);
    enabled = is_given group_id;
    keep_previous = false;
    stale_time = none;
  }

  unfoldable pub use_student_group_memberships_query : Option Text → QueryOptions W (List Json)
  use_student_group_memberships_query student_profile_id = record {
    query_key = name "student-group-memberships" ∷ nullable_id student_profile_id ∷ [];
    query_fn = get_student_group_memberships send (id_or_null student_profile_id);
    enabled = is_given student_profile_id;
    keep_previous = false;
    stale_time = none;
  }

  unfoldable pub use_my_group_memberships_query : QueryOptions W (List Json)
  use_my_group_memberships_query = record {
    query_key = name "group-members" ∷ name "me" ∷ [];
    query_fn = get_my_group_memberships send;
    enabled = true;
    keep_previous = false;
    stale_time = none;
  }

  unfoldable pub use_create_group_mutation : GroupInput → MutationOptions W (Option Json)
  use_create_group_mutation input = record {
    mutation_fn = create_group send input;
    on_success = λ _. invalidated ("groups" ∷ "groups-page" ∷ []);
  }

  unfoldable pub use_update_group_mutation : Text → GroupPatch → MutationOptions W (Option Json)
  use_update_group_mutation group_id input = record {
    mutation_fn = update_group send group_id input;
    on_success = λ _. invalidated ("groups" ∷ "groups-page" ∷ []);
  }

  unfoldable pub use_delete_group_mutation : Text → MutationOptions W (Unit {0})
  use_delete_group_mutation group_id = record {
    mutation_fn = delete_group send group_id;
    on_success = λ _. invalidated ("groups" ∷ "groups-page" ∷ []);
  }

  unfoldable pub use_add_group_member_mutation :
      AddGroupMemberInput → MutationOptions W (Option Json)
  use_add_group_member_mutation input = record {
    mutation_fn = add_group_member send input;
    on_success = λ _.
        invalidated
          ("group-members" ∷ "invoices" ∷ "invoices-page" ∷ "groups" ∷ "groups-page" ∷ []);
  }

  unfoldable pub use_remove_group_member_mutation : Text → MutationOptions W (Unit {0})
  use_remove_group_member_mutation member_id = record {
    mutation_fn = remove_group_member send member_id;
    on_success = λ _. invalidated ("group-members" ∷ "groups" ∷ "groups-page" ∷ []);
  }

  -- The queries of the groups.
  unfoldable pub use_my_roster_query : List Text → List (QueryOptions W (List Json))
  use_my_roster_query [] = []
  use_my_roster_query (group_id ∷ group_ids) =
      record {
        query_key = name "group-members" ∷ str group_id ∷ [];
        query_fn = get_group_members send group_id;
        enabled = is_text group_id;
        keep_previous = false;
        stale_time = none;
      }
      ∷ use_my_roster_query group_ids
