-- ===== src/Api/Students.antt =====
-- frontend/lib/api/students.ts: how a student is created, with the account, the profile and the
-- parent, what is undone when a step fails, and how a student is changed.
pub mod Undone
pub mod Changed
use mentorio.Prelude.{
  ℕ, String, Option, none, some, List, [], ◌∷◌, ◌++◌, Bool, true, false, ◌==◌, ◌||◌, ◌&&◌, leb,
  if◌then◌else◌,
}
use mentorio.Prelude.Text.{Text, codes}
use mentorio.Http.{Url, RequestInit, HttpRequest, Response}
use mentorio.Json.{Json, str, bool, opt_prop, opt_truthy}
use mentorio.Client.{Call, Error, ◌>>=◌, ◌>>◌, return, api_fetch}
use mentorio.Api.{
  given, truthy_text, names_any, patch, text_or_null, arr_texts, post, delete, at, item,
}
use mentorio.Api.Rollback.{caught, id_of, id_text, undo, swallow}

pub record CreateStudentInput : Type 0 where
  pub organization_id : Text
  pub student_role_id : Text
  pub first_name : Text
  pub last_name : Text
  pub phone : Text
  pub gender : Text
  pub date_of_birth : Text
  pub password : Text
  pub student_code : Text
  pub status : Text
  pub parent_name : Text
  pub parent_phone : Text

-- The class `\s`.
unfoldable pub is_space : ℕ → Bool
is_space c =
    (leb 9 c && leb c 13)
    || c == 32
    || c == 160
    || c == 5760
    || (leb 8192 c && leb c 8202)
    || c == 8232
    || c == 8233
    || c == 8239
    || c == 8287
    || c == 12288
    || c == 65279

-- A word's next character: put before the first word, or in front of it as a new one.
abbrev grow : Bool → ℕ → List Text → List Text
grow true c [] = (c ∷ []) ∷ []
grow true c (w ∷ ws) = (c ∷ w) ∷ ws
grow false c ws = (c ∷ []) ∷ ws

-- Whether the text goes on with a character that is no space.
abbrev goes_on : Text → Bool
goes_on [] = false
goes_on (c ∷ s) = if is_space c then false else true

unfoldable pub words : Text → List Text
words [] = []
words (c ∷ s) = let rest = words s in if is_space c then rest else grow (goes_on s) c rest

unfoldable pub join_words : List Text → Text
join_words [] = []
join_words (w ∷ []) = w
join_words (w ∷ v ∷ ws) = w ++ codes " " ++ join_words (v ∷ ws)

-- `rest.join(" ") || first`
abbrev last_or : Text → Text → Text
last_or [] first = first
last_or (c ∷ s) first = c ∷ s

abbrev names_of : List Text → Text × Text
names_of [] = ([], [])
names_of (first ∷ rest) = (first, last_or (join_words rest) first)

-- `splitParentName`: the first and the last name; `trim` and `split(/\s+/)` leave the words, or one
-- empty text if there is none.
unfoldable pub split_parent_name : Text → Text × Text
unfolding words join_words
split_parent_name full_name = names_of (words full_name)

unfoldable pub parent_body : Text → Option Json → Text → Text → List (String × Option Json)
parent_body organization_id profile_id name phone =
    let (first_name, last_name) = split_parent_name name in
    ("organization", some (str organization_id))
    ∷ ("student_profile", profile_id)
    ∷ ("relation", some (str (codes "guardian")))
    ∷ ("first_name", some (str first_name))
    ∷ ("last_name", some (str last_name))
    ∷ ("phone", some (text_or_null phone))
    ∷ ("is_primary_contact", some (bool true))
    ∷ []

unfoldable pub student_user_body : CreateStudentInput → List (String × Option Json)
student_user_body input =
    ("organization", some (str input.organization_id))
    ∷ ("first_name", some (str input.first_name))
    ∷ ("last_name", some (str input.last_name))
    ∷ ("phone", some (str input.phone))
    ∷ ("gender", some (str input.gender))
    ∷ ("date_of_birth", some (text_or_null input.date_of_birth))
    ∷ ("password", some (str input.password))
    ∷ ("status", some (str (codes "active")))
    ∷ ("role_ids", some (arr_texts (input.student_role_id ∷ [])))
    ∷ []

unfoldable pub student_profile_body : CreateStudentInput → Option Json → List (String × Option Json)
student_profile_body input user_id =
    ("organization", some (str input.organization_id))
    ∷ ("user", user_id)
    ∷ ("student_code", some (str input.student_code))
    ∷ ("status", some (str input.status))
    ∷ []

abbrev pub user_url : Text → Url
user_url id = item "/api/v1/users/" id "/"

abbrev pub student_url : Text → Url
student_url id = item "/api/v1/students/" id "/"

abbrev pub create_user_call : CreateStudentInput → Url × RequestInit
create_user_call input = (at "/api/v1/users/", post (student_user_body input))

abbrev pub create_profile_call : CreateStudentInput → Option Json → Url × RequestInit
create_profile_call input user_id =
    (at "/api/v1/students/", post (student_profile_body input user_id))

abbrev pub create_parent_call : Text → Option Json → Text → Text → Url × RequestInit
create_parent_call organization_id profile_id name phone =
    (at "/api/v1/students/parents/", post (parent_body organization_id profile_id name phone))

-- The primary parent as the form edits it.
pub record ParentChange : Type 0 where
  pub name : Text
  pub phone : Text
  pub organization_id : Text
  pub existing_parent_id : Option Text

pub record UpdateStudentInput : Type 0 where
  pub user_id : Text
  pub first_name : Option Text
  pub last_name : Option Text
  pub phone : Option Text
  pub gender : Option Text
  pub date_of_birth : Option Text
  pub student_code : Option Text
  pub status : Option Text
  pub parent : Option ParentChange

unfoldable pub student_user_patch : UpdateStudentInput → List (String × Option Json)
student_user_patch input =
    ("first_name", given str input.first_name)
    ∷ ("last_name", given str input.last_name)
    ∷ ("phone", given str input.phone)
    ∷ ("gender", given str input.gender)
    ∷ ("date_of_birth", given text_or_null input.date_of_birth)
    ∷ []

unfoldable pub student_profile_patch : UpdateStudentInput → List (String × Option Json)
student_profile_patch input =
    ("student_code", given str input.student_code) ∷ ("status", given str input.status) ∷ []

unfoldable pub parent_patch : ParentChange → List (String × Option Json)
parent_patch parent =
    let (first_name, last_name) = split_parent_name parent.name in
    ("first_name", some (str first_name))
    ∷ ("last_name", some (str last_name))
    ∷ ("phone", some (text_or_null parent.phone))
    ∷ []

module _ {W : Type 0} (send : HttpRequest → W → Option Response × W) where
  abbrev pub call : Url × RequestInit → Call W (Option Json)
  call (url, init) = api_fetch send url init

  unfoldable pub create_primary_parent : Text → Option Json → Text → Text → Call W (Unit {0})
  create_primary_parent organization_id profile_id name phone =
      call (create_parent_call organization_id profile_id name phone) >>= λ _. return tt

  -- The catch block, with the profile once there is one.
  unfoldable pub undo_student {ℓ} : {A : Type ℓ} → Option Json → Option Json → Error → Call W A
  undo_student profile user_id e =
      (if opt_truthy profile
        then swallow (call (student_url (id_text (opt_prop "id" profile)), delete))
        else return tt)
      >> undo send (user_url (id_text user_id)) e

  -- `createStudent`. With no readable account the catch block throws, too, before it calls anything.
  unfoldable pub create_student : CreateStudentInput → Call W (Option Json)
  create_student input = do
    user ← call (create_user_call input)
    user_id ← id_of user
    profile ← caught (call (create_profile_call input user_id)) (undo_student none user_id)
    profile_id ← caught (id_of profile) (undo_student profile user_id)
    caught
        (create_primary_parent input.organization_id profile_id input.parent_name
          input.parent_phone)
        (undo_student profile user_id)
    return profile

  -- The parent of `updateStudent`: changed if there is one already, and made otherwise.
  unfoldable pub save_parent : Text → Option ParentChange → Call W (Unit {0})
  save_parent profile_id none = return tt
  save_parent profile_id (some parent) = elim (truthy_text parent.existing_parent_id) [
    | none ↦
        create_primary_parent parent.organization_id (some (str profile_id)) parent.name
          parent.phone
    | some id ↦ call (item "/api/v1/students/parents/" id "/", patch (parent_patch parent)) >>= λ _.
        return tt
  ]

  -- `updateStudent`: the account only if something of it changes.
  unfoldable pub update_student : Text → UpdateStudentInput → Call W (Option Json)
  update_student profile_id input = do
    if names_any (student_user_patch input)
        then (call (user_url input.user_id, patch (student_user_patch input)) >>= λ _. return tt)
        else return tt
    profile ← call (student_url profile_id, patch (student_profile_patch input))
    save_parent profile_id input.parent
    return profile
