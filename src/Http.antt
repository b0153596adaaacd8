-- ===== src/Http.antt =====
-- Requests and responses as frontend/lib/api exchanges them with the browser's `fetch`.
use mentorio.Prelude.{ℕ, Bool, ◌&&◌, Option, none, [], leb}
use mentorio.Prelude.Text.{Text}
use mentorio.Prelude.Dict.{Dict}
use mentorio.Json.{Json}

-- A `URLSearchParams` with no key twice.
abbrev pub Query : Type 0
Query = Dict Text

-- A path behind the API's origin; `query` is what stands behind "?", if that stands there at all.
pub record Url : Type 0 where
  pub path : Text
  pub query : Option Query

-- `JSON.stringify(v)`, or a form with one uploaded file, by its name.
pub data Body : Type 0 where
  json : Json → Body
  form : Text → Body

pub record RequestInit : Type 0 where
  pub method : Option Text
  pub body : Option Body
  pub headers : Dict Text

abbrev pub no_init : RequestInit
no_init = record { method = none; body = none; headers = [] }

-- What goes out; `credentials` is "include" on every request.
pub record HttpRequest : Type 0 where
  pub url : Url
  pub method : Text
  pub body : Option Body
  pub headers : Dict Text

-- `body` is what `response.json()` resolves to, `none` if it rejects.
pub record Response : Type 0 where
  pub status : ℕ
  pub body : Option Json

abbrev pub response_ok : Response → Bool
response_ok r = leb 200 r.status && leb r.status 299
