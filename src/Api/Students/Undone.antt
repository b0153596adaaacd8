-- ===== src/Api/Students/Undone.antt =====
-- createStudent of frontend/lib/api/students.ts leaves nothing half made: what it calls and returns in
-- each case, by the answers.
use mentorio.Prelude.{◌≡◌, true, false, Option, List, [], ◌∷◌, ◌++◌, if◌then◌else◌}
use mentorio.Http.{Url, RequestInit, HttpRequest, Response}
use mentorio.Json.{Json, opt_prop, opt_truthy}
use mentorio.Client.{Page, Outcome, ok, throw, Error, malformed}
use mentorio.Api.{delete}
use mentorio.Api.Rollback.{is_nullish, id_text, after_calls, Answers}
use mentorio.Api.Students.{
  CreateStudentInput, user_url, student_url, create_user_call, create_profile_call,
  create_parent_call,
}

-- The deletion of a profile that was answered, unless it is falsy.
abbrev pub profile_deleted : Option Json → List (Url × RequestInit)
profile_deleted d =
    if opt_truthy d then (student_url (id_text (opt_prop "id" d)), delete) ∷ [] else []

module _ {W : Type 0} (send : HttpRequest → W → Option Response × W)
    (input : CreateStudentInput) where
  abbrev user : Url × RequestInit
  user = create_user_call input

  -- The profile's call for an answered account, and the account's deletion.
  abbrev profile : Option Json → Url × RequestInit
  profile u = create_profile_call input (opt_prop "id" u)

  abbrev user_deleted : Option Json → Url × RequestInit
  user_deleted u = (user_url (id_text (opt_prop "id" u)), delete)

  abbrev parent : Option Json → Url × RequestInit
  parent d =
      create_parent_call input.organization_id (opt_prop "id" d) input.parent_name
        input.parent_phone

  -- How the creation ends, from the page `p`, by what the backend answers to each call.
  pub data Transaction (p : Page W) : Outcome (Option Json) × Page W → Type 0 where
    no_account :
        (e : Error)
        → Answers send p [] user (throw e)
        → Transaction p (throw e, after_calls send (user ∷ []) p)
    unreadable_account :
        (u : Option Json)
        → Answers send p [] user (ok u)
        → is_nullish u ≡ true
        → Transaction p (throw malformed, after_calls send (user ∷ []) p)
    no_profile :
        (u : Option Json) (e : Error)
        → Answers send p [] user (ok u)
        → is_nullish u ≡ false
        → Answers send p (user ∷ []) (profile u) (throw e)
        → Transaction p (throw e, after_calls send (user ∷ profile u ∷ user_deleted u ∷ []) p)
    unreadable_profile :
        (u d : Option Json)
        → Answers send p [] user (ok u)
        → is_nullish u ≡ false
        → Answers send p (user ∷ []) (profile u) (ok d)
        → is_nullish d ≡ true
        → Transaction p
            (throw malformed, after_calls send (user ∷ profile u ∷ user_deleted u ∷ []) p)
    no_parent :
        (u d : Option Json) (e : Error)
        → Answers send p [] user (ok u)
        → is_nullish u ≡ false
        → Answers send p (user ∷ []) (profile u) (ok d)
        → is_nullish d ≡ false
        → Answers send p (user ∷ profile u ∷ []) (parent d) (throw e)
        → Transaction p (
          throw e,
          after_calls send
              (user ∷ profile u ∷ parent d ∷ profile_deleted d ++ user_deleted u ∷ [])
              p,
        )
    created :
        (u d v : Option Json)
        → Answers send p [] user (ok u)
        → is_nullish u ≡ false
        → Answers send p (user ∷ []) (profile u) (ok d)
        → is_nullish d ≡ false
        → Answers send p (user ∷ profile u ∷ []) (parent d) (ok v)
        → Transaction p (ok d, after_calls send (user ∷ profile u ∷ parent d ∷ []) p)

  abbrev answered : (x : Outcome (Option Json) × Page W) → Outcome (Option Json)
  answered x = x.0
