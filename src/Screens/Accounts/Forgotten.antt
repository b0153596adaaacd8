-- ===== src/Screens/Accounts/Forgotten.antt =====
-- The forgotten password, in three steps: frontend/app/(auth)/forgot-password/page.tsx.
use mentorio.Prelude.{
  Bool, not, ◌&&◌, Option, none, some, List, [], ◌∷◌, if◌then◌else◌, all, length, ◌==◌,
}
use mentorio.Prelude.Text.{Text, same, is_digit}
use mentorio.Json.{opt_prop}
use mentorio.Client.{Error, api_error, Outcome, ok, throw}
use mentorio.Screens.{Message, key, text, message_or}
use mentorio.Screens.Numbers.{trim}
use mentorio.Screens.Accounts.{is_empty, went_wrong}
use mentorio.Screens.Accounts.Passwords.{first_of}

-- The steps of the page.
pub data ResetStep : Type 0 where
  login verify done : ResetStep

pub record ResetErrors : Type 0 where
  pub login_id : Option Message
  pub code : Option Message
  pub password : Option Message
  pub general : Option Message

abbrev pub no_reset_errors : ResetErrors
no_reset_errors = record { login_id = none; code = none; password = none; general = none }

-- `reset` is the token of the reset that was started.
pub record ResetPage : Type 0 where
  pub step : ResetStep
  pub login_id : Text
  pub reset : Option Text
  pub code : Text
  pub password : Text
  pub confirm : Text
  pub errors : ResetErrors

abbrev pub new_reset_page : ResetPage
new_reset_page = record {
  step = login;
  login_id = [];
  reset = none;
  code = [];
  password = [];
  confirm = [];
  errors = no_reset_errors;
}

unfoldable pub after_start : Outcome Text → ResetPage → ResetPage
after_start (ok token) p = record p { reset = some token; step = verify; errors = no_reset_errors }
after_start (throw e) p = record p {
  errors = record no_reset_errors { general = some (message_or went_wrong e) };
}

unfoldable pub handle_start : (Text → Outcome Text) → ResetPage → ResetPage
handle_start answer p =
    if is_empty (trim p.login_id)
    then record p { errors = record no_reset_errors { login_id = some (key "Login is required.") } }
    else after_start (answer (trim p.login_id)) p

-- `/^\d{6}$/.test(code.trim())`
abbrev pub is_six_digits : Text → Bool
is_six_digits code = all is_digit (trim code) && length (trim code) == 6

unfoldable pub check_code : Text → Option Message
check_code code =
    if is_six_digits code then none else some (key "Enter the 6-digit code from Telegram.")

unfoldable pub check_password : Text → Text → Option Message
check_password password confirm =
    if is_empty password
    then some (key "Choose a new password.")
    else if not (same password confirm)
    then some (key "Passwords do not match.")
    else none

-- `a ?? b`
abbrev pub or_second : Option Message → Option Message → Option Message
or_second none b = b
or_second (some a) b = some a

abbrev pub confirm_failed : Error → ResetErrors
confirm_failed (api_error e) = elim e.field_errors [
  | none ↦ record no_reset_errors { general = some (text e.message) }
  | some fields ↦ record no_reset_errors {
    code = first_of (opt_prop "code" (some fields));
    password =
        or_second (first_of (opt_prop "password" (some fields)))
          (first_of (opt_prop "new_password" (some fields)));
  }
]
confirm_failed e = record no_reset_errors { general = some (message_or went_wrong e) }

-- The call of `confirmPasswordReset`: the token, the code and the new password.
pub record ConfirmCall : Type 0 where
  pub token : Text
  pub code : Text
  pub password : Text

unfoldable pub after_confirm : Outcome (Unit {0}) → ResetPage → ResetPage
after_confirm (ok _) p = record p { step = done; errors = no_reset_errors }
after_confirm (throw e) p = record p { errors = confirm_failed e }

-- `handleConfirm` behind its checks, with the call that it makes.
unfoldable pub confirm_checked :
    (ConfirmCall → Outcome (Unit {0}))
    → Option Text
    → Option Message
    → Option Message
    → ResetPage
    → List ConfirmCall × ResetPage
confirm_checked answer none wrong_code wrong_password p = ([], p)
confirm_checked answer (some token) none none p =
    let call : ConfirmCall = record { token = token; code = trim p.code; password = p.password } in
    (call ∷ [], after_confirm (answer call) p)
confirm_checked answer (some token) wrong_code wrong_password p = (
  [],
  record p { errors = record no_reset_errors { code = wrong_code; password = wrong_password } },
)

unfoldable pub handle_confirm :
    (ConfirmCall → Outcome (Unit {0})) → ResetPage → List ConfirmCall × ResetPage
handle_confirm answer p =
    confirm_checked answer p.reset (check_code p.code) (check_password p.password p.confirm) p

unfoldable pub start_over : ResetPage → ResetPage
start_over p = record new_reset_page { login_id = p.login_id }
