-- ===== src/Api/TeacherLists.antt =====
-- frontend/lib/api/teachers.ts: teachers, read and deleted, with the inputs that Teachers
-- takes.
use mentorio.Prelude.{ℕ, Option, List, [], ◌∷◌}
use mentorio.Prelude.Text.{Text, codes}
use mentorio.Http.{Query, HttpRequest, Response}
use mentorio.Json.{Json, Decimal}
use mentorio.Client.{Call, ◌>>=◌, return, api_fetch}
use mentorio.Client.Pages.{ResultPage, fetch_page, fetch_all_pages}
use mentorio.Api.{set_if, or_default, delete, item}

pub record ListTeachersParams : Type 0 where
  pub organization_id : Option Text
  pub status : Option Text
  pub search : Option Text

unfoldable pub teachers_query : ListTeachersParams → Query
teachers_query params =
    set_if "search" params.search
      (set_if "status" params.status (set_if "organization" params.organization_id []))

unfoldable pub teachers_page_query : ListTeachersParams → Query
teachers_page_query params =
    set_if "search" params.search
      (set_if "status" params.status (set_if "organization" params.organization_id []))

unfoldable pub teacher_specializations_query : Text → Query
teacher_specializations_query teacher_profile_id = ("teacher_profile", teacher_profile_id) ∷ []

unfoldable pub teacher_salaries_query : Text → Query
teacher_salaries_query teacher_profile_id = ("teacher_profile", teacher_profile_id) ∷ []

pub record CreateTeacherSalaryInput : Type 0 where
  pub organization_id : Text
  pub teacher_profile_id : Text
  pub salary_type : Text
  pub amount : Decimal
  pub percentage_value : Option Decimal
  pub effective_from : Text
  pub notes : Option Text

pub record CreateTeacherInput : Type 0 where
  pub organization_id : Text
  pub teacher_role_id : Text
  pub first_name : Text
  pub last_name : Text
  pub phone : Text
  pub gender : Text
  pub password : Text
  pub teacher_code : Text
  pub status : Text
  pub employment_type : Text
  pub specialization : Text
  pub salary : Decimal

pub record UpdateTeacherInput : Type 0 where
  pub user_id : Text
  pub first_name : Option Text
  pub last_name : Option Text
  pub phone : Option Text
  pub gender : Option Text
  pub teacher_code : Option Text
  pub status : Option Text
  pub employment_type : Option Text
  pub bio : Option Text
  pub experience_years : Option Decimal
  pub education_degree : Option Text
  pub university : Option Text

module _ {W : Type 0} (send : HttpRequest → W → Option Response × W) where
  unfoldable pub list_teachers : ListTeachersParams → Call W (List Json)
  list_teachers params = fetch_all_pages send (codes "/api/v1/teachers/") (teachers_query params)

  unfoldable pub list_teachers_page : ListTeachersParams → Option ℕ → Option ℕ → Call W ResultPage
  list_teachers_page params page page_size =
      fetch_page send (codes "/api/v1/teachers/") (teachers_page_query params) (or_default 1 page)
        (or_default 20 page_size)

  unfoldable pub get_teacher_specializations : Text → Call W (List Json)
  get_teacher_specializations teacher_profile_id =
      fetch_all_pages send (codes "/api/v1/teachers/specializations/")
        (teacher_specializations_query teacher_profile_id)

  unfoldable pub get_teacher_salaries : Text → Call W (List Json)
  get_teacher_salaries teacher_profile_id =
      fetch_all_pages send (codes "/api/v1/teachers/salaries/")
        (teacher_salaries_query teacher_profile_id)

  unfoldable pub delete_teacher : Text → Call W (Unit {0})
  delete_teacher profile_id =
      api_fetch send (item "/api/v1/teachers/" profile_id "/") delete >>= λ _. return tt
