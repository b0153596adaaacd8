-- ===== src/Queries/Platform.antt =====
-- frontend/lib/queries/settings.ts and organizations.ts: the hooks that change the settings of the
-- platform and of a user's region, send test messages, and create a center.
use mentorio.Prelude.{Option, [], ◌∷◌}
use mentorio.Prelude.Text.{Text}
use mentorio.Http.{HttpRequest, Response}
use mentorio.Json.{Json}
use mentorio.Client.{Error}
use mentorio.Api.PlatformSettings.{
  PlatformSettingsPatch, RegionSettingsPatch, TestOutcome, update_platform_settings,
  update_my_region_settings, test_email_settings, test_sms_settings,
}
use mentorio.Api.NewOrganization.{OrganizationInput, create_organization}
use mentorio.Queries.{MutationOptions, invalidated}

module _ {W : Type 0} (send : HttpRequest → W → Option Response × W) where
  unfoldable pub use_update_platform_settings_mutation :
      PlatformSettingsPatch → MutationOptions W (Option Json)
  use_update_platform_settings_mutation input = record {
    mutation_fn = update_platform_settings send input;
    on_success = λ _. invalidated ("platform-settings" ∷ "platform-branding" ∷ []);
  }

  unfoldable pub use_update_my_region_settings_mutation :
      RegionSettingsPatch → MutationOptions W (Option Json)
  use_update_my_region_settings_mutation input = record {
    mutation_fn = update_my_region_settings send input;
    on_success = λ _. invalidated ("my-region-settings" ∷ []);
  }

  unfoldable pub use_test_email_settings_mutation :
      (Error → Text) → Option Text → MutationOptions W TestOutcome
  use_test_email_settings_mutation browser_message to = record {
    mutation_fn = test_email_settings send browser_message to;
    on_success = λ _. [];
  }

  unfoldable pub use_test_sms_settings_mutation :
      (Error → Text) → Text → MutationOptions W TestOutcome
  use_test_sms_settings_mutation browser_message to = record {
    mutation_fn = test_sms_settings send browser_message to;
    on_success = λ _. [];
  }

  unfoldable pub use_create_organization_mutation :
      (Text → Text) → Text → OrganizationInput → MutationOptions W (Option Json)
  use_create_organization_mutation to_lower_case stamp input = record {
    mutation_fn = create_organization send to_lower_case stamp input;
    on_success = λ _. invalidated ("organizations" ∷ "organizations-page" ∷ []);
  }
