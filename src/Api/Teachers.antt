-- ===== src/Api/Teachers.antt =====
-- frontend/lib/api/teachers.ts: how a teacher is created, with the account, the profile, the
-- specialization and the salary, what is undone when a step fails, and how a teacher is changed.
pub mod Undone
pub mod Changed
use mentorio.Prelude.{String, Bool, true, false, Option, none, some, List, [], ◌∷◌, if◌then◌else◌}
use mentorio.Prelude.Text.{Text, codes, same}
use mentorio.Http.{Url, RequestInit, HttpRequest, Response}
use mentorio.Json.{Json, null, str, num, bool, opt_prop, opt_truthy}
use mentorio.Client.{Call, Error, ◌>>=◌, ◌>>◌, return, api_fetch}
use mentorio.Api.{names_any, or_null, arr_texts, given, post, patch, delete, at, item}
use mentorio.Api.TeacherLists.{CreateTeacherSalaryInput, CreateTeacherInput, UpdateTeacherInput}
use mentorio.Api.Rollback.{caught, id_of, id_text, undo, swallow}

unfoldable pub create_teacher_salary_body : CreateTeacherSalaryInput → List (String × Option Json)
create_teacher_salary_body input =
    ("organization", some (str input.organization_id))
    ∷ ("teacher_profile", some (str input.teacher_profile_id))
    ∷ ("salary_type", some (str input.salary_type))
    ∷ ("amount", some (num input.amount))
    ∷ ("currency", some (str (codes "UZS")))
    ∷ (
      "percentage_value",
      if same input.salary_type (codes "percentage")
          then given num input.percentage_value
          else some null,
    )
    ∷ ("effective_from", some (str input.effective_from))
    ∷ ("notes", some (or_null input.notes))
    ∷ ("is_active", some (bool true))
    ∷ []

unfoldable pub teacher_user_body : CreateTeacherInput → List (String × Option Json)
teacher_user_body input =
    ("organization", some (str input.organization_id))
    ∷ ("first_name", some (str input.first_name))
    ∷ ("last_name", some (str input.last_name))
    ∷ ("phone", some (str input.phone))
    ∷ ("gender", some (str input.gender))
    ∷ ("password", some (str input.password))
    ∷ ("status", some (str (codes "active")))
    ∷ ("role_ids", some (arr_texts (input.teacher_role_id ∷ [])))
    ∷ []

unfoldable pub teacher_profile_body : CreateTeacherInput → Option Json → List (String × Option Json)
teacher_profile_body input user_id =
    ("organization", some (str input.organization_id))
    ∷ ("user", user_id)
    ∷ ("teacher_code", some (str input.teacher_code))
    ∷ ("status", some (str input.status))
    ∷ ("employment_type", some (str input.employment_type))
    ∷ []

unfoldable pub specialization_body : CreateTeacherInput → Option Json → List (String × Option Json)
specialization_body input profile_id =
    ("organization", some (str input.organization_id))
    ∷ ("teacher_profile", profile_id)
    ∷ ("subject_name", some (str input.specialization))
    ∷ ("is_primary", some (bool true))
    ∷ []

-- `today` is the date of the clock, in UTC.
unfoldable pub first_salary_body :
    Text → CreateTeacherInput → Option Json → List (String × Option Json)
first_salary_body today input profile_id =
    ("organization", some (str input.organization_id))
    ∷ ("teacher_profile", profile_id)
    ∷ ("salary_type", some (str (codes "fixed")))
    ∷ ("amount", some (num input.salary))
    ∷ ("currency", some (str (codes "UZS")))
    ∷ ("effective_from", some (str today))
    ∷ ("is_active", some (bool true))
    ∷ []

abbrev pub account_url : Text → Url
account_url id = item "/api/v1/users/" id "/"

abbrev pub teacher_url : Text → Url
teacher_url id = item "/api/v1/teachers/" id "/"

abbrev pub specialization_url : Text → Url
specialization_url id = item "/api/v1/teachers/specializations/" id "/"

abbrev pub account_call : CreateTeacherInput → Url × RequestInit
account_call input = (at "/api/v1/users/", post (teacher_user_body input))

abbrev pub teacher_call : CreateTeacherInput → Option Json → Url × RequestInit
teacher_call input user_id = (at "/api/v1/teachers/", post (teacher_profile_body input user_id))

abbrev pub specialization_call : CreateTeacherInput → Option Json → Url × RequestInit
specialization_call input profile_id =
    (at "/api/v1/teachers/specializations/", post (specialization_body input profile_id))

abbrev pub salary_call : Text → CreateTeacherInput → Option Json → Url × RequestInit
salary_call today input profile_id =
    (at "/api/v1/teachers/salaries/", post (first_salary_body today input profile_id))

unfoldable pub teacher_user_patch : UpdateTeacherInput → List (String × Option Json)
teacher_user_patch input =
    ("first_name", given str input.first_name)
    ∷ ("last_name", given str input.last_name)
    ∷ ("phone", given str input.phone)
    ∷ ("gender", given str input.gender)
    ∷ []

unfoldable pub teacher_profile_patch : UpdateTeacherInput → List (String × Option Json)
teacher_profile_patch input =
    ("teacher_code", given str input.teacher_code)
    ∷ ("status", given str input.status)
    ∷ ("employment_type", given str input.employment_type)
    ∷ ("bio", given str input.bio)
    ∷ ("experience_years", given num input.experience_years)
    ∷ ("education_degree", given str input.education_degree)
    ∷ ("university", given str input.university)
    ∷ []

module _ {W : Type 0} (send : HttpRequest → W → Option Response × W) where
  abbrev pub send_call : Url × RequestInit → Call W (Option Json)
  send_call (url, init) = api_fetch send url init

  unfoldable pub create_teacher_salary : CreateTeacherSalaryInput → Call W (Option Json)
  create_teacher_salary input =
      api_fetch send (at "/api/v1/teachers/salaries/") (post (create_teacher_salary_body input))

  -- `if (made) { await apiFetch(…, { method: "DELETE" }).catch(() => {}) }`
  unfoldable pub undo_made : (Text → Url) → Option Json → Call W (Unit {0})
  undo_made url made =
      if opt_truthy made
      then swallow (send_call (url (id_text (opt_prop "id" made)), delete))
      else return tt

  -- The catch block, with the specialization and the profile once there are such.
  unfoldable pub undo_teacher {ℓ} :
      {A : Type ℓ} → Option Json → Option Json → Option Json → Error → Call W A
  undo_teacher specialization profile user_id e =
      undo_made specialization_url specialization
      >> undo_made teacher_url profile
      >> undo send (account_url (id_text user_id)) e

  -- `createTeacher`. With no readable account the catch block throws, too, before it calls anything.
  unfoldable pub create_teacher : Text → CreateTeacherInput → Call W (Option Json)
  create_teacher today input = do
    user ← send_call (account_call input)
    user_id ← id_of user
    profile ← caught (send_call (teacher_call input user_id)) (undo_teacher none none user_id)
    profile_id ← caught (id_of profile) (undo_teacher none profile user_id)
    specialization ←
        caught (send_call (specialization_call input profile_id))
          (undo_teacher none profile user_id)
    salary ←
        caught (send_call (salary_call today input profile_id))
          (undo_teacher specialization profile user_id)
    return profile

  -- `updateTeacher`: the account only if something of it changes.
  unfoldable pub update_teacher : Text → UpdateTeacherInput → Call W (Option Json)
  update_teacher profile_id input = do
    if names_any (teacher_user_patch input)
        then (send_call (account_url input.user_id, patch (teacher_user_patch input)) >>= λ _.
            return tt)
        else return tt
    send_call (teacher_url profile_id, patch (teacher_profile_patch input))
