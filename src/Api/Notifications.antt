-- ===== src/Api/Notifications.antt =====
-- frontend/lib/api/notifications.ts: notifications.
use mentorio.Prelude.{String, Option, some, List, [], ◌∷◌, Bool}
use mentorio.Prelude.Text.{Text, codes}
use mentorio.Http.{Query, HttpRequest, Response, no_init}
use mentorio.Json.{Json, str, bool}
use mentorio.Client.{Call, ◌>>=◌, return, api_fetch}
use mentorio.Client.Pages.{fetch_all_pages}
use mentorio.Api.{or_default, set_bool, post, patch, delete, at, item}

pub record ListNotificationsInput : Type 0 where
  pub read : Option Bool

unfoldable pub notifications_query : ListNotificationsInput → Query
notifications_query params = set_bool "read" params.read []

pub record NotificationInput : Type 0 where
  pub recipient : Text
  pub title : Text
  pub message : Text
  pub type : Option Text
  pub category : Option Text

unfoldable pub create_notification_body : NotificationInput → List (String × Option Json)
create_notification_body input =
    ("recipient", some (str input.recipient))
    ∷ ("title", some (str input.title))
    ∷ ("message", some (str input.message))
    ∷ ("type", some (str (or_default (codes "info") input.type)))
    ∷ ("category", some (str (or_default [] input.category)))
    ∷ []

unfoldable pub mark_notification_read_body : Bool → List (String × Option Json)
mark_notification_read_body read = ("read", some (bool read)) ∷ []

unfoldable pub update_my_telegram_body : Bool → List (String × Option Json)
update_my_telegram_body notifications_enabled =
    ("notifications_enabled", some (bool notifications_enabled)) ∷ []

module _ {W : Type 0} (send : HttpRequest → W → Option Response × W) where
  unfoldable pub list_notifications : ListNotificationsInput → Call W (List Json)
  list_notifications params =
      fetch_all_pages send (codes "/api/v1/notifications/") (notifications_query params)

  unfoldable pub create_notification : NotificationInput → Call W (Option Json)
  create_notification input =
      api_fetch send (at "/api/v1/notifications/") (post (create_notification_body input))

  unfoldable pub mark_notification_read : Text → Bool → Call W (Option Json)
  mark_notification_read id read =
      api_fetch send (item "/api/v1/notifications/" id "/")
        (patch (mark_notification_read_body read))

  unfoldable pub delete_notification : Text → Call W (Unit {0})
  delete_notification id =
      api_fetch send (item "/api/v1/notifications/" id "/") delete >>= λ _. return tt

  unfoldable pub get_my_telegram : Call W (Option Json)
  get_my_telegram = api_fetch send (at "/api/v1/notifications/telegram/") no_init

  unfoldable pub update_my_telegram : Bool → Call W (Option Json)
  update_my_telegram notifications_enabled =
      api_fetch send (at "/api/v1/notifications/telegram/")
        (patch (update_my_telegram_body notifications_enabled))
