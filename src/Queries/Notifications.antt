-- ===== src/Queries/Notifications.antt =====
-- frontend/lib/queries/notifications.ts: its hooks, as the options that they hand to TanStack Query.
use mentorio.Prelude.{Bool, true, false, Option, none, List, [], ◌∷◌, String}
use mentorio.Prelude.Text.{Text}
use mentorio.Http.{HttpRequest, Response}
use mentorio.Json.{Json, obj, bool}
use mentorio.Api.{given, defined}
use mentorio.Api.Notifications.{
  ListNotificationsInput, NotificationInput, create_notification, delete_notification,
  get_my_telegram, list_notifications, mark_notification_read, update_my_telegram,
}
use mentorio.Queries.{name, QueryOptions, MutationOptions, set_query_data, invalidated}

-- The options as a JavaScript object.
unfoldable pub list_notifications_input : ListNotificationsInput → List (String × Option Json)
list_notifications_input params = ("read", given bool params.read) ∷ []

module _ {W : Type 0} (send : HttpRequest → W → Option Response × W) where
  unfoldable pub use_notifications_query : ListNotificationsInput → QueryOptions W (List Json)
  use_notifications_query params = record {
    query_key = name "notifications" ∷ obj (defined (list_notifications_input params)) ∷ [];
    query_fn = list_notifications send params;
    enabled = true;
    keep_previous = false;
    stale_time = none;
  }

  unfoldable pub use_create_notification_mutation :
      NotificationInput → MutationOptions W (Option Json)
  use_create_notification_mutation input = record {
    mutation_fn = create_notification send input;
    on_success = λ _. invalidated ("notifications" ∷ []);
  }

  unfoldable pub use_mark_notification_read_mutation : Text → Bool → MutationOptions W (Option Json)
  use_mark_notification_read_mutation id read = record {
    mutation_fn = mark_notification_read send id read;
    on_success = λ _. invalidated ("notifications" ∷ []);
  }

  unfoldable pub use_delete_notification_mutation : Text → MutationOptions W (Unit {0})
  use_delete_notification_mutation id = record {
    mutation_fn = delete_notification send id;
    on_success = λ _. invalidated ("notifications" ∷ []);
  }

  unfoldable pub use_my_telegram_query : QueryOptions W (Option Json)
  use_my_telegram_query = record {
    query_key = name "notifications" ∷ name "telegram" ∷ [];
    query_fn = get_my_telegram send;
    enabled = true;
    keep_previous = false;
    stale_time = none;
  }

  unfoldable pub use_update_my_telegram_mutation : Bool → MutationOptions W (Option Json)
  use_update_my_telegram_mutation notifications_enabled = record {
    mutation_fn = update_my_telegram send notifications_enabled;
    on_success = λ saved. set_query_data (name "notifications" ∷ name "telegram" ∷ []) saved ∷ [];
  }
