-- ===== src/Api/PlatformSettings.antt =====
-- frontend/lib/api/settings.ts: the settings of the platform and of a user's region, and the messages
-- sent for a test.
use mentorio.Prelude.{String, Bool, true, false, Option, some, List, [], ◌∷◌}
use mentorio.Prelude.Text.{Text}
use mentorio.Http.{HttpRequest, Response}
use mentorio.Json.{Json, str, obj}
use mentorio.Client.{Call, Error, api_error, ◌>>=◌, return, api_fetch}
use mentorio.Api.{given, defined, send_body, stringify, post, at}
use mentorio.Api.Rollback.{caught}

-- The settings of one panel that are given.
abbrev pub Panel : Type 0
Panel = List (String × Option Json)

pub record PlatformSettingsPatch : Type 0 where
  pub general : Option Panel
  pub security : Option Panel
  pub theme : Option Panel
  pub languages : Option Panel
  pub email : Option Panel
  pub sms : Option Panel

abbrev pub panel : Panel → Json
panel entries = obj (defined entries)

unfoldable pub update_platform_settings_body : PlatformSettingsPatch → List (String × Option Json)
update_platform_settings_body input =
    ("general", given panel input.general)
    ∷ ("security", given panel input.security)
    ∷ ("theme", given panel input.theme)
    ∷ ("languages", given panel input.languages)
    ∷ ("email", given panel input.email)
    ∷ ("sms", given panel input.sms)
    ∷ []

pub record RegionSettingsPatch : Type 0 where
  pub timezone : Option Text
  pub date_format : Option Text

unfoldable pub update_my_region_settings_body : RegionSettingsPatch → List (String × Option Json)
update_my_region_settings_body input =
    ("timezone", given str input.timezone) ∷ ("dateFormat", given str input.date_format) ∷ []

-- The outcome of a test: it is shown, and no error.
pub record TestOutcome : Type 0 where
  pub success : Bool
  pub message : Json

-- `err.message`; the texts of the browser's own errors are the parameter `browser_message`.
abbrev pub message_of_error : (Error → Text) → Error → Json
message_of_error browser_message (api_error e) = e.message
message_of_error browser_message e = str (browser_message e)

unfoldable pub tested : {W : Type 0} → (Error → Text) → Call W (Option Json) → Call W TestOutcome
tested browser_message m =
    caught (m >>= λ _. return (record { success = true; message = str [] }))
      (λ e. return (record { success = false; message = message_of_error browser_message e }))

unfoldable pub test_email_body : Option Text → List (String × Option Json)
test_email_body (some (c ∷ to)) = ("to", some (str (c ∷ to))) ∷ []
test_email_body _ = []

unfoldable pub test_sms_body : Text → List (String × Option Json)
test_sms_body to = ("to", some (str to)) ∷ []

module _ {W : Type 0} (send : HttpRequest → W → Option Response × W) where
  unfoldable pub update_platform_settings : PlatformSettingsPatch → Call W (Option Json)
  update_platform_settings input =
      api_fetch send (at "/api/v1/settings/platform/")
        (send_body "PUT" (stringify (update_platform_settings_body input)))

  unfoldable pub update_my_region_settings : RegionSettingsPatch → Call W (Option Json)
  update_my_region_settings input =
      api_fetch send (at "/api/v1/settings/my-region/")
        (send_body "PUT" (stringify (update_my_region_settings_body input)))

  unfoldable pub test_email_settings : (Error → Text) → Option Text → Call W TestOutcome
  test_email_settings browser_message to =
      tested browser_message
        (api_fetch send (at "/api/v1/settings/platform/email/test/") (post (test_email_body to)))

  unfoldable pub test_sms_settings : (Error → Text) → Text → Call W TestOutcome
  test_sms_settings browser_message to =
      tested browser_message
        (api_fetch send (at "/api/v1/settings/platform/sms/test/") (post (test_sms_body to)))
