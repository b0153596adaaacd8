-- ===== src/Client/Answers.antt =====
-- How frontend/lib/api/client.ts turns a response into a value or an error.
use mentorio.Prelude.{
  ◌≡◌, refl, inl, inr, Bool, true, false, ◌&&◌, Option, ◌==◌, if◌then◌else◌, arith, Bool-cases,
  Option-cases,
}
use mentorio.Prelude.Text.{Text, codes, same}
use mentorio.Http.{Response, response_ok}
use mentorio.Json.{Json, opt_prop, opt_truthy}
use mentorio.Client.{
  Page, Outcome, ok, throw, api_error, ApiError, go_to, change_password_path,
  is_password_change_required, message_of, extract_field_errors, settle, await,
}

-- The network and the requests are the same.
abbrev pub SameWire : {W : Type 0} → Page W → Page W → Type 0
SameWire p q = (p.net ≡ q.net) × (p.sent ≡ q.sent)

pub go_to-SameWire : {W : Type 0} (to : Text) (p : Page W) → SameWire (go_to to p) p
unfolding go_to
go_to-SameWire to p = elim (Option-cases p.pathname) [
  | inl outside ↦ rw (outside, go_to) (refl, refl)
  | inr (here, inside) ↦ elim (Bool-cases (same here to)) [
    | inl there ↦ rw (inside, there, go_to) (refl, refl)
    | inr away ↦ rw (inside, away, go_to) (refl, refl)
  ]
]

-- The test on the 403 that asks for a new password, and the one on the envelope.
abbrev pub wants_password : Response → Bool
wants_password r = r.status == 403 && is_password_change_required (opt_prop "data" r.body)

abbrev pub is_success : Response → Bool
is_success r = response_ok r && (opt_truthy r.body && opt_truthy (opt_prop "success" r.body))

-- The page that `settle` leaves.
unfoldable pub settle_page : {W : Type 0} → Response → Page W → Page W
settle_page r p = if wants_password r then go_to change_password_path p else p

-- What a caller may read from a response: the envelope's data, or why there is none.
unfoldable pub unwrap : Response → Outcome (Option Json)
unwrap r =
    if is_success r
    then ok (opt_prop "data" r.body)
    else throw (
        api_error (record {
          message = message_of r.body (codes "Request failed.");
          status = r.status;
          field_errors = extract_field_errors (opt_prop "data" r.body);
        }))

pub settle-eq : {W : Type 0} (r : Response) (p : Page W) → settle r p ≡ (unwrap r, settle_page r p)
unfolding settle unwrap settle_page await
settle-eq r p = elim (Bool-cases (wants_password r)) [
  | inl asked ↦ elim (Bool-cases (is_success r)) [
    | inl good ↦ rw (asked, good, settle)
    | inr bad ↦ rw (asked, bad, settle)
  ]
  | inr not_asked ↦ elim (Bool-cases (is_success r)) [
    | inl good ↦ rw (not_asked, good, settle)
    | inr bad ↦ rw (not_asked, bad, settle)
  ]
]

pub settle_page-SameWire : {W : Type 0} (r : Response) (p : Page W) → SameWire (settle_page r p) p
unfolding settle_page
settle_page-SameWire r p = elim (Bool-cases (wants_password r)) [
  | inl asked ↦ rw (asked, settle_page) (go_to-SameWire change_password_path p)
  | inr not_asked ↦ rw (not_asked, settle_page) (refl, refl)
]

-- A value comes from a response with a status from 200 to 299 and an envelope that says success;
-- it is the envelope's data.
pub unwrap-eq-ok :
    (r : Response) (d : Option Json)
    → unwrap r ≡ ok d
    → (response_ok r ≡ true)
      × (opt_truthy (opt_prop "success" r.body) ≡ true)
      × (d ≡ opt_prop "data" r.body)
unfolding unwrap
unwrap-eq-ok r d e = ground arith

-- A response that is not ok is an `ApiError` with its status.
pub unwrap-not-ok :
    (r : Response)
    → response_ok r ≡ false
    → (e : ApiError) × (unwrap r ≡ throw (api_error e)) × (e.status ≡ r.status)
unfolding unwrap
unwrap-not-ok r bad = (
  record {
    message = message_of r.body (codes "Request failed.");
    status = r.status;
    field_errors = extract_field_errors (opt_prop "data" r.body);
  },
  rw bad,
  refl,
)
