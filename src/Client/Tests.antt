-- ===== src/Client/Tests.antt =====
-- The API client against small servers, and the theorems about it at them.
use mathlib.Core.Path.{subst}
use mathlib.Core.Option.{some-injective}
use mentorio.Prelude.{
  ◌++◌, ℕ, zero, suc, ◌≡◌, refl, Bool, true, false, Option, none, some, List, [], ◌∷◌,
  if◌then◌else◌, length, arith,
}
use mentorio.Prelude.Text.{Text, codes, same}
use mentorio.Prelude.Dict.{get, put}
use mentorio.Prelude.Number.{show}
use mentorio.Http.{Query, Url, no_init, HttpRequest, Response}
use mentorio.Json.{Json, bool, str, obj, arr, field, end, whole, items}
use mentorio.Client.{
  Page, ok, throw, api_error, ApiError, await, go_to, login_page, refresh_path, is_exempt,
  request_of, settle, fetch, do_fetch, as_boolean, refresh_access_token, api_fetch_retry,
  after_unauthorized, api_fetch, message_of, is_password_change_required, download_again,
  download_file,
}
use mentorio.Client.Session.{Conversation, Granted, api_fetch-Conversation, api_fetch-Granted}
use mentorio.Client.Renewal.{SameAnswer, api_fetch-renewed, api_fetch-session_over}
use mentorio.Client.Pages.{page_url, paginated_of, fetch_all_pages}
use mentorio.Client.Pages.Complete.{IsPage, Serves, requests, fetch_all_pages_complete}
use mentorio.Client.Flight.{unauthorized, answered, run, fresh}
use mentorio.Client.Flight.Single.{Inv, run-fresh-Inv, run-burst}

abbrev success : Json → Json
success v =
    obj (field "success" (bool true) (field "message" (str (codes "OK")) (field "data" v end)))

abbrev denied : Response
denied = record { status = 401; body = some (obj (field "success" (bool false) end)) }

-- The network's state is whether the access token is valid; `alive` is whether the refresh token is.
abbrev server : Bool → HttpRequest → Bool → Option Response × Bool
server alive q valid =
    if same q.url.path refresh_path
    then (if alive
        then (some (record { status = 200; body = none }), true)
        else (some denied, false))
    else if valid
    then (some (record { status = 200; body = some (success (whole 7)) }), true)
    else (some denied, false)

abbrev groups_url : Url
groups_url = record { path = codes "/api/v1/groups/"; query = none }

abbrev on_page : Bool → Page Bool
on_page valid = record {
  net = valid;
  sent = [];
  pathname = some (codes "/teacher");
  assigned = [];
  saved = [];
}

client : Unit {0}
unfolding api_fetch do_fetch fetch after_unauthorized api_fetch_retry refresh_access_token
    as_boolean settle await is_exempt message_of is_password_change_required request_of go_to
    download_file download_again
client = tt

api_fetch_tests :
    ((api_fetch (server true) groups_url no_init (on_page false)).0 ≡ ok (some (whole 7)))
    × ((api_fetch (server false) groups_url no_init (on_page false)).1.assigned ≡ login_page ∷ [])
    × (length (api_fetch (server true) groups_url no_init (on_page false)).1.sent ≡ 3)
    × (length (api_fetch (server true) groups_url no_init (on_page true)).1.sent ≡ 1)
unfolding client
api_fetch_tests = (refl, refl, refl, refl)

download_file_tests :
    ((download_file (server true) groups_url (codes "a.pdf") (on_page false)).1.saved
      ≡ codes "a.pdf" ∷ [])
    × ((download_file (server false) groups_url (codes "a.pdf") (on_page false)).1.saved ≡ [])
unfolding client
download_file_tests = (refl, refl)

api_fetch-Conversation_example :
    Conversation
      (server true)
      groups_url
      no_init
      []
      (api_fetch (server true) groups_url no_init (on_page false)).1.sent
api_fetch-Conversation_example =
    api_fetch-Conversation (server true) groups_url no_init (on_page false)

api_fetch-Granted_example : Granted (server true) groups_url no_init (some (whole 7))
api_fetch-Granted_example =
    api_fetch-Granted (server true) groups_url no_init (on_page false) (some (whole 7))
      api_fetch_tests.0

refused : ((server true) (request_of groups_url no_init) false).0 ≡ some denied
unfolding client
refused = refl

granted_ne_401 :
    (s : Response)
    → ◌≡◌ {A = Option Response}
        (some (record { status = 200; body = some (success (whole 7)) }))
        (some s)
    → s.status ≡ 401
    → ⊥
granted_ne_401 s e status = ground arith

api_fetch-renewed_example :
    SameAnswer
      (api_fetch (server true) groups_url no_init (on_page false))
      (api_fetch (server true) groups_url no_init (on_page true))
unfolding client
api_fetch-renewed_example =
    api_fetch-renewed (server true) groups_url no_init (on_page false) denied refl refl refl refl
      (λ s e same_status. granted_ne_401 s e same_status)

api_fetch-session_over_example :
    ((e : ApiError) × ((api_fetch (server false) groups_url no_init (on_page false)).0
        ≡ throw (api_error e))
      × (e.status ≡ 401))
    × ((api_fetch (server false) groups_url no_init (on_page false)).1.assigned ≡ login_page ∷ [])
unfolding client
api_fetch-session_over_example =
    api_fetch-session_over (server false) groups_url no_init (on_page false) denied
      (codes "/teacher") refl refl refl refl refl refl

-- A server with two pages of one list.
abbrev rows_of : Text → List Json
rows_of page = if same page (codes "1") then whole 1 ∷ whole 2 ∷ [] else whole 3 ∷ []

abbrev page_answer : List Json → Response
page_answer rows = record {
  status = 200;
  body = some (
      success (
        obj (
          field "results" (arr (items rows)) (
            field "pagination"
              (obj (field "count" (whole 3) (field "page" (whole 1) (field "pages" (whole 2) end))))
              end))));
}

abbrev page_param : Option Query → Text
page_param none = []
page_param (some q) = elim (get "page" q) [ none ↦ [] | some page ↦ page ]

unfoldable list_server : HttpRequest → ℕ → Option Response × ℕ
unfolding get
list_server q n = (some (page_answer (rows_of (page_param q.url.query))), suc n)

abbrev two_pages : List (List Json)
two_pages = (whole 1 ∷ whole 2 ∷ []) ∷ (whole 3 ∷ []) ∷ []

IsPage-one : IsPage (page_answer (rows_of (codes "1"))) (whole 1 ∷ whole 2 ∷ []) 2
unfolding paginated_of
IsPage-one = record {
  status = refl;
  parsed = refl;
  success = refl;
  page = _;
  read = refl;
  results = refl;
  count = refl;
}

IsPage-two : IsPage (page_answer (rows_of (codes "2"))) (whole 3 ∷ []) 2
unfolding paginated_of
IsPage-two = record {
  status = refl;
  parsed = refl;
  success = refl;
  page = _;
  read = refl;
  results = refl;
  count = refl;
}

list_server-Serves : Serves list_server (codes "/api/v1/exams/") [] two_pages
unfolding list_server page_url request_of put show
list_server-Serves zero rows net e = (
  page_answer (rows_of (codes "1")),
  refl,
  subst (λ rs. IsPage (page_answer (rows_of (codes "1"))) rs 2) (some-injective _ _ e) IsPage-one,
)
list_server-Serves (suc zero) rows net e = (
  page_answer (rows_of (codes "2")),
  refl,
  subst (λ rs. IsPage (page_answer (rows_of (codes "2"))) rs 2) (some-injective _ _ e) IsPage-two,
)
list_server-Serves (suc (suc n)) rows net e = cc

abbrev at_zero : Page ℕ
at_zero = record { net = 0; sent = []; pathname = none; assigned = []; saved = [] }

fetch_all_pages_complete_example :
    (p' : Page ℕ) × (fetch_all_pages list_server (codes "/api/v1/exams/") [] at_zero
      ≡ (ok (whole 1 ∷ whole 2 ∷ whole 3 ∷ []), p'))
    × (p'.sent ≡ requests (codes "/api/v1/exams/") [] 1 2 ++ [])
fetch_all_pages_complete_example =
    fetch_all_pages_complete list_server (codes "/api/v1/exams/") [] (whole 1 ∷ whole 2 ∷ [])
      ((whole 3 ∷ []) ∷ []) at_zero list_server-Serves

run-fresh-Inv_example : Inv (run (unauthorized 4 ∷ unauthorized 5 ∷ answered true ∷ []) fresh)
run-fresh-Inv_example = run-fresh-Inv (unauthorized 4 ∷ unauthorized 5 ∷ answered true ∷ [])

run-burst_example : run (unauthorized 4 ∷ unauthorized 5 ∷ answered true ∷ []) fresh ≡ record {
  flight = none;
  started = 1;
  finished = 1;
  waiting = [];
  resumed = (5, true) ∷ (4, true) ∷ [];
}
run-burst_example = run-burst fresh 4 (5 ∷ []) true refl refl
