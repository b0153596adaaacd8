-- ===== src/Api/Teachers/Changed.antt =====
-- What updateTeacher of frontend/lib/api/teachers.ts sends.
use mentorio.Api.{names_any}
use mentorio.Prelude.{refl, inl, inr, Bool, true, false, Bool-cases, Option, List, [], ◌∷◌}
use mentorio.Prelude.Text.{Text}
use mentorio.Http.{Url, RequestInit, HttpRequest, Response}
use mentorio.Json.{Json}
use mentorio.Client.{Page, Outcome, throw, Error, await}
use mentorio.Client.Session.{Conversation, api_fetch-Conversation}
use mentorio.Api.{patch}
use mentorio.Api.Rollback.{Calls, Outcome-cases}
use mentorio.Api.TeacherLists.{UpdateTeacherInput}
use mentorio.Api.Teachers.{
  account_url, teacher_url, teacher_user_patch, teacher_profile_patch, send_call, update_teacher,
}

abbrev pub account_change : UpdateTeacherInput → Url × RequestInit
account_change input = (account_url input.user_id, patch (teacher_user_patch input))

abbrev pub profile_change : Text → UpdateTeacherInput → Url × RequestInit
profile_change pid input = (teacher_url pid, patch (teacher_profile_patch input))

-- The calls of each way that the change of a teacher may go.
pub data Change (pid : Text) (input : UpdateTeacherInput)
    : Bool → Outcome (Option Json) → List (Url × RequestInit) → Type 0 where
  profile_only :
      (out : Outcome (Option Json)) → Change pid input false out (profile_change pid input ∷ [])
  both :
      (out : Outcome (Option Json))
      → Change pid input true out (account_change input ∷ profile_change pid input ∷ [])
  stopped : (e : Error) → Change pid input true (throw e) (account_change input ∷ [])

module _ {W : Type 0} (send : HttpRequest → W → Option Response × W) where
  said :
      (c : Url × RequestInit) (p : Page W)
      → Conversation send c.0 c.1 p.sent (send_call send c p).1.sent
  said (url, init) p = api_fetch-Conversation send url init p

  -- A change of a teacher sends the profile's fields; before them, if and only if a field of the
  -- account is given, those of the account, and the profile is left alone if that call fails.
  update_teacher-Change :
      (pid : Text) (input : UpdateTeacherInput) (p : Page W)
      → (calls : List (Url × RequestInit)) × Change pid input
          (names_any (teacher_user_patch input))
          (update_teacher send pid input p).0
          calls
        × Calls send calls p.sent (update_teacher send pid input p).1.sent
  unfolding update_teacher await
  update_teacher-Change pid input p = elim (Bool-cases (names_any (teacher_user_patch input))) [
    | inr none_given ↦
        rw (none_given, update_teacher)
          (_, profile_only _, (_, said (profile_change pid input) p, refl))
    | inl given_some ↦ elim (Outcome-cases (send_call send (account_change input) p)) [
      | inr (e, lost) ↦
          rw (given_some, lost, update_teacher)
            (_, stopped e, (_, said (account_change input) p, refl))
      | inl (d, made) ↦
          rw (given_some, made, update_teacher)
            (
              _,
              both _,
              (_, said (account_change input) p, (_, said (profile_change pid input) _, refl)),
            )
    ]
  ]
