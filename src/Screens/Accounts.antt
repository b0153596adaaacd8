-- ===== src/Screens/Accounts.antt =====
-- Signing in and out, and the change of a password: frontend/app/(auth)/login/page.tsx,
-- frontend/app/(auth)/change-password/page.tsx, frontend/lib/hooks/use-logout.ts,
-- frontend/lib/hooks/use-change-own-password.ts, with frontend/lib/store/auth-store.ts and the locale
-- cookie of frontend/i18n/locales.ts.
pub mod Entered
pub mod Passwords
pub mod Changed
pub mod Forgotten
pub mod Confirmed
use mentorio.Prelude.{
  ℕ, Bool, true, false, not, ◌&&◌, ◌||◌, Option, none, some, List, [], ◌∷◌, ◌++◌, ◌+◌, String,
  if◌then◌else◌, str_eq, any, ◌==◌,
}
use mentorio.Prelude.Text.{Text, codes, same, starts_with}
use mentorio.Prelude.Dict.{Dict, get}
use mentorio.Json.{Json, str, arr, elems, find_field, obj}
use mentorio.Access.{role_portal_map, includes, home_of}
use mentorio.Client.{ApiError, Error, api_error, rejected, malformed, Outcome, ok, throw}
use mentorio.Screens.{Message, key, Notice, success, error, message_or}
use mentorio.Screens.Numbers.{trim}

-- `AuthUser`, with the fields that the pages read.
pub record StoredUser : Type 0 where
  pub id : String
  pub role : Option String
  pub language : String
  pub must_change_password : Bool

-- What the pages change of the browser: the signed-in user of the auth store, the pieces of
-- `document.cookie.split("; ")`, the pages that the router goes to (the last one first), and how often
-- it is refreshed.
pub record Browser : Type 0 where
  pub user : Option StoredUser
  pub cookies : List Text
  pub visited : List Text
  pub refreshes : ℕ

unfoldable pub set_user : StoredUser → Browser → Browser
set_user user b = record b { user = some user }

unfoldable pub clear_user : Browser → Browser
clear_user b = record b { user = none }

-- `router.push` and `router.replace`.
abbrev pub go : Text → Browser → Browser
go to b = record b { visited = to ∷ b.visited }

abbrev pub locales : List String
locales = "en" ∷ "uz" ∷ "ru" ∷ []

unfoldable pub is_locale : String → Bool
is_locale value = not (str_eq value "") && includes locales value

abbrev pub locale_cookie : Text
locale_cookie = codes "NEXT_LOCALE="

unfoldable pub has_locale : List Text → Bool
has_locale cookies = any (λ c. starts_with c locale_cookie) cookies

unfoldable pub seed_locale_cookie_if_unset : String → Browser → Bool × Browser
seed_locale_cookie_if_unset language b = if has_locale b.cookies then (false, b) else (
  true,
  record b {
    cookies =
        b.cookies ++ (locale_cookie ++ codes (if is_locale language then language else "uz")) ∷ [];
  },
)

-- The errors of a form: `none` is undefined.
pub record LoginErrors : Type 0 where
  pub login : Option Message
  pub password : Option Message
  pub general : Option Message

abbrev pub no_login_errors : LoginErrors
no_login_errors = record { login = none; password = none; general = none }

abbrev pub is_empty : Text → Bool
is_empty [] = true
is_empty (c ∷ s) = false

abbrev pub unless : Bool → Message → Option Message
unless true message = none
unless false message = some message

unfoldable pub validate_login : Text → Text → LoginErrors
validate_login login password = record {
  login = unless (not (is_empty (trim login))) (key "Login is required.");
  password = unless (not (is_empty password)) (key "Password is required.");
  general = none;
}

abbrev pub went_wrong : String
went_wrong = "Something went wrong. Please try again."

abbrev pub no_portal : String
no_portal = "Your account doesn't have access to a portal yet. Please contact your administrator."

-- A call of the API, as it is made and what it comes to; a page with its errors.
pub record LoginPage : Type 0 where
  pub calls : List (Text × Text)
  pub errors : LoginErrors
  pub browser : Browser

abbrev pub refresh_if : Bool → Browser → Browser
refresh_if changed b = if changed then record b { refreshes = b.refreshes + 1 } else b

unfoldable pub enter : StoredUser → Text → Browser → Browser
enter user portal b =
    let seeded = seed_locale_cookie_if_unset user.language b in
    go (if user.must_change_password then codes "/change-password" else portal)
      (refresh_if seeded.0 (set_user user seeded.1))

-- For a role that is a key of `Object.prototype` the router is handed the value of that key, for which
-- its text stands here.
unfoldable pub after_login : Outcome StoredUser → Browser → LoginErrors × Browser
after_login (throw e) b = (record no_login_errors { general = some (message_or went_wrong e) }, b)
after_login (ok user) b = elim (home_of user.role) [
  | none ↦ (record no_login_errors { general = some (key no_portal) }, b)
  | some portal ↦ (no_login_errors, enter user portal b)
]

-- `handleSubmit` of the login page; the half second before the new page is not modelled.
unfoldable pub handle_login : (Text → Text → Outcome StoredUser) → Text → Text → Browser → LoginPage
handle_login login_request login password b =
    if is_empty (trim login) || is_empty password
    then record { calls = []; errors = validate_login login password; browser = b }
    else let (errors, b') = after_login (login_request (trim login) password) b in
      record { calls = (trim login, password) ∷ []; errors = errors; browser = b' }

-- `handleLogout`; a failure of the call is thrown on.
unfoldable pub handle_logout : Outcome (Unit {0}) → Browser → Outcome (Unit {0}) × Browser
handle_logout answer b = (answer, go (codes "/login") (clear_user b))
