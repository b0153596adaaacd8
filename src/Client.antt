-- ===== src/Client.antt =====
-- frontend/lib/api/client.ts: one API call, with the refresh and the one retry after a 401, and the
-- download of a file. The network and the server behind it are the parameter `send`.
pub mod Answers
pub mod Retry
pub mod Session
pub mod Renewal
pub mod Pages
pub mod Flight
mod Tests
use mentorio.Prelude.{
  ℕ, suc, ◌+◌, String, Bool, true, false, not, ◌&&◌, ◌||◌, Option, none, some, List, [], ◌∷◌, ◌++◌,
  if◌then◌else◌, ◌==◌, leb, any, all,
}
use mentorio.Prelude.Text.{Text, codes, same}
use mentorio.Prelude.Dict.{Dict, put}
use mentorio.Http.{
  Query, Url, Body, json, form, RequestInit, no_init, HttpRequest, Response, response_ok,
}
use mentorio.Json.{Json, null, str, arr, obj, elems, prop, opt_prop, truthy, opt_truthy}

-- `ApiError`; the message is what the Error is made from.
pub record ApiError : Type 0 where
  pub message : Json
  pub status : ℕ
  pub field_errors : Option Json

-- `rejected`: the network failed. `malformed`: an answer off the declared form.
pub data Error : Type 0 where
  rejected malformed : Error
  api_error : ApiError → Error

pub data Outcome {ℓ} (A : Type ℓ) : Type ℓ where
  ok : A → Outcome A
  throw : Error → Outcome A

abbrev pub refresh_path : Text
refresh_path = codes "/api/v1/auth/refresh/"

abbrev pub login_page : Text
login_page = codes "/login"

abbrev pub change_password_path : Text
change_password_path = codes "/change-password"

abbrev pub exempt_paths : List Text
exempt_paths = codes "/api/v1/auth/login/" ∷ refresh_path ∷ []

-- `AUTH_PATHS_EXEMPT_FROM_REFRESH.includes(path)`: a path with a query is none of them.
unfoldable pub is_exempt : Url → Bool
is_exempt url = elim url.query [ none ↦ any (same url.path) exempt_paths | some q ↦ false ]

abbrev pub or_get : Option Text → Text
or_get none = codes "GET"
or_get (some method) = method

abbrev pub is_form : Option Body → Bool
is_form none = false
is_form (some (json v)) = false
is_form (some (form f)) = true

abbrev put_all : Dict Text → Dict Text → Dict Text
put_all [] headers = headers
put_all ((k, v) ∷ more) headers = put_all more (put k v headers)

abbrev default_headers : Bool → Dict Text
default_headers true = []
default_headers false = ("Content-Type", codes "application/json") ∷ []

-- The request of `doFetch`.
unfoldable pub request_of : Url → RequestInit → HttpRequest
unfolding put
request_of url init = record {
  url = url;
  method = or_get init.method;
  body = init.body;
  headers = put_all init.headers (default_headers (is_form init.body));
}

-- The request of `refreshAccessToken`.
abbrev pub refresh_request : HttpRequest
refresh_request = record {
  url = record { path = refresh_path; query = none };
  method = codes "POST";
  body = none;
  headers = [];
}

-- `extractFieldErrors`
abbrev pub extract_field_errors : Option Json → Option Json
extract_field_errors (some (obj fs)) = some (obj fs)
extract_field_errors _ = none

abbrev is_code : Json → Bool
is_code (str s) = same s (codes "password_change_required")
is_code _ = false

abbrev code_listed : Option Json → Bool
code_listed (some (arr vs)) = any is_code (elems vs)
code_listed _ = false

-- `isPasswordChangeRequired`
unfoldable pub is_password_change_required : Option Json → Bool
is_password_change_required payload = code_listed (opt_prop "code" payload)

-- `body?.message ?? text`
abbrev or_message : Option Json → Text → Json
or_message none text = str text
or_message (some null) text = str text
or_message (some v) text = v

unfoldable pub message_of : Option Json → Text → Json
message_of body text = or_message (opt_prop "message" body) text

-- The browser page: the network's state, the requests sent (the last one first), the location's
-- pathname (`none` outside a browser), the pages assigned to it and the files saved.
pub record Page (W : Type 0) : Type 0 where
  pub net : W
  pub sent : List HttpRequest
  pub pathname : Option Text
  pub assigned : List Text
  pub saved : List Text

-- `if (typeof window !== "undefined" && window.location.pathname !== to) window.location.assign(to)`
unfoldable pub go_to : {W : Type 0} → Text → Page W → Page W
go_to to p = elim p.pathname [
  | none ↦ p
  | some here ↦ if same here to then p else record p { assigned = to ∷ p.assigned }
]

-- What a call does to the page, with the value or the error that its promise settles to.
abbrev pub Call {ℓ} : Type 0 → Type ℓ → Type ℓ
Call W A = Page W → Outcome A × Page W

-- `await`: goes on with a value, and passes an error on.
unfoldable pub await {ℓ κ} :
    {W : Type 0} {A : Type ℓ} {B : Type κ}
    → Outcome A × Page W
    → (A → Call W B)
    → Outcome B × Page W
await (ok v, p) f = f v p
await (throw e, p) f = (throw e, p)

infixl 5 ◌>>=◌ ◌>>◌
abbrev pub ◌>>=◌ {ℓ κ} :
    {W : Type 0} {A : Type ℓ} {B : Type κ} → Call W A → (A → Call W B) → Call W B
◌>>=◌ m f p = await (m p) f

abbrev pub ◌>>◌ {ℓ} : {W : Type 0} {B : Type ℓ} → Call W (Unit {0}) → Call W B → Call W B
m >> k = m >>= λ _. k

abbrev pub return {ℓ} : {W : Type 0} {A : Type ℓ} → A → Call W A
return v p = (ok v, p)

abbrev pub fail {ℓ} : {W : Type 0} {A : Type ℓ} → Error → Call W A
fail e p = (throw e, p)

-- A synchronous effect on the page.
abbrev pub modify : {W : Type 0} → (Page W → Page W) → Call W (Unit {0})
modify f p = (ok tt, f p)

-- `if (test) …;`
abbrev pub when : {W : Type 0} → Bool → Call W (Unit {0}) → Call W (Unit {0})
when true m = m
when false m = return tt

abbrev pub from_option {ℓ} : {W : Type 0} {A : Type ℓ} → Error → Option A → Call W A
from_option e none = fail e
from_option e (some v) = return v

-- The end of `apiFetchWithRefresh`: the 403 that asks for a new password, and the envelope.
unfoldable pub settle : {W : Type 0} → Response → Call W (Option Json)
unfolding go_to
settle r = do
  when (r.status == 403 && is_password_change_required (opt_prop "data" r.body))
      (modify (go_to change_password_path))
  if response_ok r && (opt_truthy r.body && opt_truthy (opt_prop "success" r.body))
      then return (opt_prop "data" r.body)
      else fail (
          api_error (record {
            message = message_of r.body (codes "Request failed.");
            status = r.status;
            field_errors = extract_field_errors (opt_prop "data" r.body);
          }))

-- `.then((res) => res.ok).catch(() => false)`
unfoldable pub as_boolean : {W : Type 0} → Outcome Response × Page W → Outcome Bool × Page W
as_boolean (ok r, p) = (ok (response_ok r), p)
as_boolean (throw e, p) = (ok false, p)

module _ {W : Type 0} (send : HttpRequest → W → Option Response × W) where
  -- `fetch`; the promise rejects if there is no response.
  unfoldable pub fetch : HttpRequest → Call W Response
  fetch q p =
      let (answer, net) = send q p.net in
      from_option rejected answer (record p { net = net; sent = q ∷ p.sent })

  unfoldable pub do_fetch : Url → RequestInit → Call W Response
  do_fetch url init = fetch (request_of url init)

  -- `refreshAccessToken`, with no refresh in flight: a rejection counts as a failed refresh.
  unfoldable pub refresh_access_token : Call W Bool
  refresh_access_token p = as_boolean (fetch refresh_request p)

  -- `apiFetchWithRefresh` with `isRetry` true: no second refresh.
  unfoldable pub api_fetch_retry : Url → RequestInit → Call W (Option Json)
  api_fetch_retry url init = do response ← do_fetch url init; settle response

  -- What a 401 on the first try is answered with.
  unfoldable pub after_unauthorized : Url → RequestInit → Response → Call W (Option Json)
  after_unauthorized url init response = do
    refreshed ← refresh_access_token
    if refreshed then api_fetch_retry url init else (modify (go_to login_page) >> settle response)

  -- `apiFetch`
  unfoldable pub api_fetch : Url → RequestInit → Call W (Option Json)
  api_fetch url init = do
    response ← do_fetch url init
    if response.status == 401 && not (is_exempt url)
        then after_unauthorized url init response
        else settle response

  -- The refresh and the second request of `downloadFile`.
  unfoldable pub download_again : Url → Response → Call W Response
  download_again url response = do
    refreshed ← refresh_access_token
    if refreshed then do_fetch url no_init else return response

  -- `downloadFile`; the last lines hand the file to the browser under `filename`.
  unfoldable pub download_file : Url → Text → Call W (Unit {0})
  download_file url filename = do
    first ← do_fetch url no_init
    response ← if first.status == 401 then download_again url first else return first
    if response_ok response
        then modify (λ p. record p { saved = filename ∷ p.saved })
        else fail (
            api_error (record {
              message = message_of response.body (codes "Download failed.");
              status = response.status;
              field_errors = none;
            }))
