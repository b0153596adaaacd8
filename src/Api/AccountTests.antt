-- ===== src/Api/AccountTests.antt =====
-- A small server for the creation of students and teachers, and the theorems about it there.
use mentorio.Api.Students.{UpdateStudentInput, update_student}
use mentorio.Api.Students.Changed.{Change, update_student-Change}
use mentorio.Prelude.{true, ◌≡◌, refl, Option, none, some, [], if◌then◌else◌}
use mentorio.Prelude.Text.{Text, codes, same}
use mentorio.Http.{HttpRequest, Response}
use mentorio.Json.{bool, str, obj, field, end}
use mentorio.Client.{Page}
use mentorio.Api.{whole_number}
use mentorio.Api.TeacherLists.{CreateTeacherInput}
use mentorio.Api.Students.{CreateStudentInput, split_parent_name, is_space}

abbrev created : Text → Response
created id = record {
  status = 201;
  body =
      some (obj (field "success" (bool true) (field "data" (obj (field "id" (str id) end)) end)));
}

-- Creates the account and refuses everything else.
abbrev no_profiles : HttpRequest → Unit {0} → Option Response × Unit {0}
no_profiles q w =
    if same q.url.path (codes "/api/v1/users/")
    then (some (created (codes "u1")), w)
    else (some (record { status = 400; body = none }), w)

abbrev blank_page : Page (Unit {0})
blank_page = record { net = tt; sent = []; pathname = none; assigned = []; saved = [] }

abbrev pupil : CreateStudentInput
pupil = record {
  organization_id = codes "o1";
  student_role_id = codes "r1";
  first_name = codes "Ali";
  last_name = codes "Valiyev";
  phone = codes "+998901234567";
  gender = codes "male";
  date_of_birth = [];
  password = codes "secret";
  student_code = codes "S1";
  status = codes "active";
  parent_name = codes " Vali  Aliyev ";
  parent_phone = [];
}

split_tests :
    (split_parent_name (codes " Vali  Aliyev ") ≡ (codes "Vali", codes "Aliyev"))
    × (split_parent_name (codes "Vali") ≡ (codes "Vali", codes "Vali"))
    × (split_parent_name (codes " ") ≡ ([], []))
unfolding split_parent_name is_space
split_tests = (refl, refl, refl)

abbrev tutor : CreateTeacherInput
tutor = record {
  organization_id = codes "o1";
  teacher_role_id = codes "r2";
  first_name = codes "Olim";
  last_name = codes "Karimov";
  phone = codes "+998901234567";
  gender = codes "male";
  password = codes "secret";
  teacher_code = codes "T1";
  status = codes "active";
  employment_type = codes "full_time";
  specialization = codes "algebra";
  salary = whole_number 500;
}

abbrev moved : UpdateStudentInput
moved = record {
  user_id = codes "u1";
  first_name = none;
  last_name = none;
  phone = some (codes "+998901234567");
  gender = none;
  date_of_birth = none;
  student_code = none;
  status = none;
  parent = some (record {
    name = codes "Vali Aliyev";
    phone = [];
    organization_id = codes "o1";
    existing_parent_id = none;
  });
}

update_student-Change_example :
    Change no_profiles
      (codes "s1")
      moved
      blank_page
      (update_student no_profiles (codes "s1") moved blank_page)
update_student-Change_example = update_student-Change no_profiles (codes "s1") moved blank_page
