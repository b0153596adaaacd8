-- ===== src/Api/Lessons.antt =====
-- frontend/lib/api/schedule.ts: lessons and their conflicts, but for the list of them.
use mentorio.Prelude.{String, Option, none, some, List, [], ◌∷◌}
use mentorio.Prelude.Text.{Text, codes}
use mentorio.Http.{HttpRequest, Response}
use mentorio.Json.{Json, str, obj, arr, opt_prop}
use mentorio.Client.{Call, Error, rejected, malformed, api_error, ◌>>=◌, return, api_fetch}
use mentorio.Api.{or_null, text_or_null, or_default, given, post, patch, delete, at, item}

pub record LessonInput : Type 0 where
  pub organization_id : Text
  pub group : Text
  pub date : Text
  pub start_time : Text
  pub end_time : Text
  pub room : Option Text
  pub topic : Option Text
  pub status : Option Text
  pub notes : Option Text

unfoldable pub create_lesson_body : LessonInput → List (String × Option Json)
create_lesson_body input =
    ("organization", some (str input.organization_id))
    ∷ ("group", some (str input.group))
    ∷ ("date", some (str input.date))
    ∷ ("start_time", some (str input.start_time))
    ∷ ("end_time", some (str input.end_time))
    ∷ ("room", some (or_null input.room))
    ∷ ("topic", some (or_null input.topic))
    ∷ ("status", some (str (or_default (codes "scheduled") input.status)))
    ∷ ("notes", some (or_null input.notes))
    ∷ []

pub record LessonPatch : Type 0 where
  pub organization_id : Option Text
  pub group : Option Text
  pub date : Option Text
  pub start_time : Option Text
  pub end_time : Option Text
  pub room : Option Text
  pub topic : Option Text
  pub status : Option Text
  pub notes : Option Text

unfoldable pub update_lesson_body : LessonPatch → List (String × Option Json)
update_lesson_body input =
    ("group", given str input.group)
    ∷ ("date", given str input.date)
    ∷ ("start_time", given str input.start_time)
    ∷ ("end_time", given str input.end_time)
    ∷ ("room", given text_or_null input.room)
    ∷ ("topic", given text_or_null input.topic)
    ∷ ("status", given str input.status)
    ∷ ("notes", given text_or_null input.notes)
    ∷ []

-- `conflict && typeof conflict === "object"`
abbrev pub object_value : Option Json → Option Json
object_value (some (obj fields)) = some (obj fields)
object_value (some (arr elements)) = some (arr elements)
object_value _ = none

-- The lesson that a new one would be booked over, next to the errors of the fields.
unfoldable pub get_lesson_conflict : Error → Option Json
get_lesson_conflict (api_error e) = object_value (opt_prop "conflict" e.field_errors)
get_lesson_conflict rejected = none
get_lesson_conflict malformed = none

module _ {W : Type 0} (send : HttpRequest → W → Option Response × W) where
  unfoldable pub create_lesson : LessonInput → Call W (Option Json)
  create_lesson input =
      api_fetch send (at "/api/v1/schedule/lessons/") (post (create_lesson_body input))

  unfoldable pub update_lesson : Text → LessonPatch → Call W (Option Json)
  update_lesson id input =
      api_fetch send (item "/api/v1/schedule/lessons/" id "/") (patch (update_lesson_body input))

  unfoldable pub delete_lesson : Text → Call W (Unit {0})
  delete_lesson id =
      api_fetch send (item "/api/v1/schedule/lessons/" id "/") delete >>= λ _. return tt
