-- ===== src/Screens/Accounts/Passwords.antt =====
-- The forms that change a password: frontend/app/(auth)/change-password/page.tsx and
-- frontend/lib/hooks/use-change-own-password.ts.
use mentorio.Prelude.{
  false, not, ◌||◌, Option, none, some, List, [], ◌∷◌, String, if◌then◌else◌, ◌==◌,
}
use mentorio.Prelude.Text.{Text, codes, same}
use mentorio.Json.{Json, arr, elems, opt_prop, opt_truthy}
use mentorio.Access.{home_of}
use mentorio.Client.{Error, api_error, Outcome, ok, throw}
use mentorio.Screens.{Message, key, text, Notice, success, error, message_or}
use mentorio.Screens.Accounts.{StoredUser, Browser, set_user, go, is_empty, went_wrong}

-- The errors of the change-password page: `none` is undefined.
pub record ChangeErrors : Type 0 where
  pub current : Option Message
  pub password : Option Message
  pub general : Option Message

abbrev pub no_change_errors : ChangeErrors
no_change_errors = record { current = none; password = none; general = none }

unfoldable pub check_current : Text → Option Message
check_current current =
    if is_empty current then some (key "Enter the temporary password you signed in with.") else none

unfoldable pub check_new : Text → Text → Text → Option Message
check_new current password confirm =
    if is_empty password
    then some (key "Choose a new password.")
    else if same password current
    then some (key "Pick a password different from the temporary one.")
    else if not (same password confirm)
    then some (key "Passwords do not match.")
    else none

-- `errors.field?.[0]`
abbrev pub first_of : Option Json → Option Message
first_of (some (arr vs)) = elim (elems vs) [ [] ↦ none | v ∷ rest ↦ some (text v) ]
first_of _ = none

abbrev pub change_failed : Error → ChangeErrors
change_failed (api_error e) =
    if e.status == 403
    then record no_change_errors { current = some (text e.message) }
    else if opt_truthy (opt_prop "password" e.field_errors)
    then record no_change_errors { password = first_of (opt_prop "password" e.field_errors) }
    else record no_change_errors { general = some (text e.message) }
change_failed e = record no_change_errors { general = some (message_or went_wrong e) }

-- The call of `changePassword`: whose, the old password and the new one.
pub record ChangeCall : Type 0 where
  pub user_id : String
  pub current : Text
  pub next : Text

pub record ChangePage : Type 0 where
  pub calls : List ChangeCall
  pub errors : ChangeErrors
  pub browser : Browser

abbrev pub home_or_login : Option Text → Text
home_or_login none = codes "/login"
home_or_login (some portal) = portal

unfoldable pub after_change : StoredUser → Outcome (Unit {0}) → Browser → ChangeErrors × Browser
after_change user (throw e) b = (change_failed e, b)
after_change user (ok _) b = (
  no_change_errors,
  go (home_or_login (home_of user.role))
      (set_user (record user { must_change_password = false }) b),
)

-- `handleSubmit` behind its checks; nothing happens with no signed-in user.
unfoldable pub change_checked :
    (ChangeCall → Outcome (Unit {0}))
    → ChangeErrors
    → Option StoredUser
    → Option Message
    → Option Message
    → Text
    → Text
    → Browser
    → ChangePage
change_checked answer errors none wrong_current wrong_new current password b = record {
  calls = [];
  errors = errors;
  browser = b;
}
change_checked answer errors (some user) none none current password b =
    let call : ChangeCall = record { user_id = user.id; current = current; next = password } in
    let (errors', b') = after_change user (answer call) b in
    record { calls = call ∷ []; errors = errors'; browser = b' }
change_checked answer errors (some user) wrong_current wrong_new current password b = record {
  calls = [];
  errors = record { current = wrong_current; password = wrong_new; general = none };
  browser = b;
}

-- `handleSubmit` of the page.
unfoldable pub handle_change :
    (ChangeCall → Outcome (Unit {0})) → ChangeErrors → Text → Text → Text → Browser → ChangePage
handle_change answer errors current password confirm b =
    change_checked answer errors b.user (check_current current) (check_new current password confirm)
      current password b

-- The card of the settings pages.
pub record Passwords : Type 0 where
  pub current : Text
  pub next : Text
  pub confirm : Text

pub record OwnChange : Type 0 where
  pub calls : List ChangeCall
  pub notice : Option Notice
  pub passwords : Passwords

abbrev pub no_passwords : Passwords
no_passwords = record { current = []; next = []; confirm = [] }

unfoldable pub after_own_change : List ChangeCall → Outcome (Unit {0}) → Passwords → OwnChange
after_own_change calls (ok _) p = record {
  calls = calls;
  notice = some (success (key "success"));
  passwords = no_passwords;
}
after_own_change calls (throw e) p = record {
  calls = calls;
  notice = some (error (message_or "failed" e));
  passwords = p;
}

-- `submit`; the messages are named by the fields of `ChangeOwnPasswordMessages`.
unfoldable pub submit_own_change :
    (ChangeCall → Outcome (Unit {0})) → Option String → Passwords → OwnChange
submit_own_change answer none p = record { calls = []; notice = none; passwords = p }
submit_own_change answer (some user_id) p =
    let call : ChangeCall = record { user_id = user_id; current = p.current; next = p.next } in
    if is_empty p.current || (is_empty p.next || is_empty p.confirm)
    then record { calls = []; notice = some (error (key "fillAll")); passwords = p }
    else if not (same p.next p.confirm)
    then record { calls = []; notice = some (error (key "mismatch")); passwords = p }
    else after_own_change (call ∷ []) (answer call) p
