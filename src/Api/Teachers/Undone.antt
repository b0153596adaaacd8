-- ===== src/Api/Teachers/Undone.antt =====
-- createTeacher of frontend/lib/api/teachers.ts leaves nothing half made: what it calls and returns in
-- each case, by the answers.
use mentorio.Prelude.{◌≡◌, true, false, Option, List, [], ◌∷◌, ◌++◌, if◌then◌else◌}
use mentorio.Prelude.Text.{Text}
use mentorio.Http.{Url, RequestInit, HttpRequest, Response}
use mentorio.Json.{Json, opt_prop, opt_truthy}
use mentorio.Client.{Page, Outcome, ok, throw, Error, malformed}
use mentorio.Api.{delete}
use mentorio.Api.Rollback.{is_nullish, id_text, after_calls, Answers}
use mentorio.Api.TeacherLists.{CreateTeacherInput}
use mentorio.Api.Teachers.{
  account_url, teacher_url, specialization_url, account_call, teacher_call, specialization_call,
  salary_call,
}

-- The deletion of what was answered, unless that is falsy.
abbrev pub deleted : (Text → Url) → Option Json → List (Url × RequestInit)
deleted url d = if opt_truthy d then (url (id_text (opt_prop "id" d)), delete) ∷ [] else []

module _ {W : Type 0} (send : HttpRequest → W → Option Response × W) (today : Text)
    (input : CreateTeacherInput) where
  abbrev account : Url × RequestInit
  account = account_call input

  -- The calls for an answered account, and the account's deletion.
  abbrev profile : Option Json → Url × RequestInit
  profile u = teacher_call input (opt_prop "id" u)

  abbrev account_deleted : Option Json → Url × RequestInit
  account_deleted u = (account_url (id_text (opt_prop "id" u)), delete)

  -- The calls for an answered profile.
  abbrev specialization : Option Json → Url × RequestInit
  specialization d = specialization_call input (opt_prop "id" d)

  abbrev salary : Option Json → Url × RequestInit
  salary d = salary_call today input (opt_prop "id" d)

  -- The answers of the backend, and the account and the profile that they hold.
  abbrev HasAccount : Page W → Option Json → Type 0
  HasAccount p u = Answers send p [] account (ok u) × (is_nullish u ≡ false)

  abbrev HasProfile : Page W → Option Json → Option Json → Type 0
  HasProfile p u d =
      HasAccount p u × Answers send p (account ∷ []) (profile u) (ok d) × (is_nullish d ≡ false)

  -- How the creation ends, from the page `p`, by what the backend answers to each call.
  pub data Course (p : Page W) : Outcome (Option Json) × Page W → Type 0 where
    no_account :
        (e : Error)
        → Answers send p [] account (throw e)
        → Course p (throw e, after_calls send (account ∷ []) p)
    unreadable_account :
        (u : Option Json)
        → Answers send p [] account (ok u)
        → is_nullish u ≡ true
        → Course p (throw malformed, after_calls send (account ∷ []) p)
    no_profile :
        (u : Option Json) (e : Error)
        → HasAccount p u
        → Answers send p (account ∷ []) (profile u) (throw e)
        → Course p (throw e, after_calls send (account ∷ profile u ∷ account_deleted u ∷ []) p)
    unreadable_profile :
        (u d : Option Json)
        → HasAccount p u
        → Answers send p (account ∷ []) (profile u) (ok d)
        → is_nullish d ≡ true
        → Course p
            (throw malformed, after_calls send (account ∷ profile u ∷ account_deleted u ∷ []) p)
    no_specialization :
        (u d : Option Json) (e : Error)
        → HasProfile p u d
        → Answers send p (account ∷ profile u ∷ []) (specialization d) (throw e)
        → Course p (
          throw e,
          after_calls send
              (account ∷ profile u ∷ specialization d ∷ deleted teacher_url d
                ++ account_deleted u ∷ [])
              p,
        )
    no_salary :
        (u d s : Option Json) (e : Error)
        → HasProfile p u d
        → Answers send p (account ∷ profile u ∷ []) (specialization d) (ok s)
        → Answers send p (account ∷ profile u ∷ specialization d ∷ []) (salary d) (throw e)
        → Course p (
          throw e,
          after_calls send
              (account ∷ profile u ∷ specialization d ∷ salary d ∷ deleted specialization_url s
                ++ deleted teacher_url d
                ++ account_deleted u ∷ [])
              p,
        )
    created :
        (u d s v : Option Json)
        → HasProfile p u d
        → Answers send p (account ∷ profile u ∷ []) (specialization d) (ok s)
        → Answers send p (account ∷ profile u ∷ specialization d ∷ []) (salary d) (ok v)
        → Course p
            (ok d, after_calls send (account ∷ profile u ∷ specialization d ∷ salary d ∷ []) p)

  abbrev answered : (x : Outcome (Option Json) × Page W) → Outcome (Option Json)
  answered x = x.0
