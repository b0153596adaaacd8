-- ===== src/Api/Rollback.antt =====
-- What createStudent of frontend/lib/api/students.ts and createTeacher of frontend/lib/api/teachers.ts
-- share: several calls of the API, and their undoing when a later one fails.
use mentorio.Prelude.{
  ℕ, zero, suc, Bool, true, false, if◌then◌else◌, ◌≡◌, refl, ◌⊎◌, inl, inr, Option, none, some,
  List, [], ◌∷◌,
}
use mentorio.Prelude.Int.{ℤ, pos, negsuc}
use mentorio.Prelude.Number.{show}
use mentorio.Prelude.Text.{Text, codes}
use mentorio.Http.{Url, RequestInit, HttpRequest, Response}
use mentorio.Json.{Json, null, bool, num, str, arr, obj, opt_prop}
use mentorio.Client.{
  Page, Call, Outcome, ok, throw, Error, malformed, return, fail, await, ◌>>◌, api_fetch,
}
use mentorio.Client.Session.{Conversation, api_fetch-Conversation}
use mentorio.Api.{delete}

-- `try { … } catch (err) { … }`
unfoldable pub rescue {ℓ} :
    {W : Type 0} {A : Type ℓ} → Outcome A × Page W → (Error → Call W A) → Outcome A × Page W
rescue (ok v, p) handler = (ok v, p)
rescue (throw e, p) handler = handler e p

abbrev pub caught {ℓ} : {W : Type 0} {A : Type ℓ} → Call W A → (Error → Call W A) → Call W A
caught m handler p = rescue (m p) handler

-- `.catch(() => {})`
abbrev pub swallow {ℓ} : {W : Type 0} {A : Type ℓ} → Call W A → Call W (Unit {0})
swallow m p = (ok tt, (m p).1)

-- What `String` makes of a value in a URL, `none` being undefined. An array or a number that is not
-- whole, which no answer of the backend has as its id, is not modelled and left empty.
abbrev pub id_text : Option Json → Text
id_text none = codes "undefined"
id_text (some null) = codes "null"
id_text (some (bool true)) = codes "true"
id_text (some (bool false)) = codes "false"
id_text (some (num d)) = whole_text d.scale d.units
  where
    whole_text : ℕ → ℤ → Text
    whole_text zero (pos n) = show n
    whole_text zero (negsuc n) = b'-' ∷ show (suc n)
    whole_text (suc k) n = []
id_text (some (str id)) = id
id_text (some (arr vs)) = []
id_text (some (obj fs)) = codes "[object Object]"

-- Undefined or null, on which every field access throws.
abbrev pub is_nullish : Option Json → Bool
is_nullish none = true
is_nullish (some null) = true
is_nullish (some v) = false

-- `data.id`
unfoldable pub id_of : {W : Type 0} → Option Json → Call W (Option Json)
id_of data_of = if is_nullish data_of then fail malformed else return (opt_prop "id" data_of)

module _ {W : Type 0} (send : HttpRequest → W → Option Response × W) where
  -- The deletion of an item, which may fail, then `throw err`.
  unfoldable pub undo {ℓ} : {A : Type ℓ} → Url → Error → Call W A
  undo url e = swallow (api_fetch send url delete) >> fail e

  -- The requests of API calls behind each other, each with its refresh and retry.
  abbrev pub Calls : List (Url × RequestInit) → List HttpRequest → List HttpRequest → Type 0
  Calls [] before after = after ≡ before
  Calls ((url, init) ∷ more) before after =
      (between : List HttpRequest) × Conversation send url init before between
      × Calls more between after

  pub api_fetch-Calls :
      (url : Url) (init : RequestInit) (more : List (Url × RequestInit)) (p : Page W)
      (after : List HttpRequest)
      → Calls more (api_fetch send url init p).1.sent after
      → Calls ((url, init) ∷ more) p.sent after
  api_fetch-Calls url init more p after rest =
      ((api_fetch send url init p).1.sent, api_fetch-Conversation send url init p, rest)

  pub undo-eq {ℓ} :
      {A : Type ℓ} (url : Url) (e : Error) (p : Page W)
      → undo {A = A} url e p ≡ (throw e, (api_fetch send url delete p).1)
  unfolding undo await
  undo-eq url e p = refl

-- The answer to a call that is made behind others, and the page behind calls, whatever they answer.
module _ {W : Type 0} (send : HttpRequest → W → Option Response × W) where
  abbrev pub after_calls : List (Url × RequestInit) → Page W → Page W
  after_calls [] p = p
  after_calls ((url, init) ∷ calls) p = after_calls calls (api_fetch send url init p).1

  abbrev pub Answers :
      Page W → List (Url × RequestInit) → Url × RequestInit → Outcome (Option Json) → Type 0
  Answers p earlier (url, init) answer =
      (api_fetch send url init (after_calls earlier p)).0 ≡ answer

pub Outcome-cases {ℓ} :
    {W : Type 0} {A : Type ℓ} (x : Outcome A × Page W)
    → ((v : A) × (x ≡ (ok v, x.1))) ⊎ ((e : Error) × (x ≡ (throw e, x.1)))
Outcome-cases (ok v, p) = inl (v, refl)
Outcome-cases (throw e, p) = inr (e, refl)

pub id_of-readable :
    {W : Type 0} (d : Option Json) (p : Page W)
    → is_nullish d ≡ false
    → id_of d p ≡ (ok (opt_prop "id" d), p)
unfolding id_of
id_of-readable d p h = rw (h, id_of) refl

pub id_of-nullish :
    {W : Type 0} (d : Option Json) (p : Page W)
    → is_nullish d ≡ true
    → id_of d p ≡ (throw malformed, p)
unfolding id_of
id_of-nullish d p h = rw (h, id_of) refl
