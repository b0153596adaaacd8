-- ===== src/Screens/Grading.antt =====
-- The submissions panel of a teacher, frontend/app/teacher/assignments/page.tsx.
pub mod Rows
pub mod Graded
use mentorio.Prelude.{
  ℕ, ◌+◌, Bool, true, false, not, ◌&&◌, ◌||◌, Option, none, some, List, [], ◌∷◌, ◌++◌, String,
  if◌then◌else◌, str_eq, length, any,
}
use mentorio.Prelude.Text.{Text}
use mentorio.Prelude.Dict.{Dict, get, put}
use mentorio.Json.{Decimal}
use mentorio.Client.{Error, Outcome}
use mentorio.Screens.{key, Notice, success, error, message_or, failures}
use mentorio.Screens.Numbers.{number_value}

pub data FilterTab : Type 0 where
  all submitted pending late : FilterTab

pub data SubmissionStatus : Type 0 where
  graded late submitted : SubmissionStatus

pub record Submission : Type 0 where
  pub id : String
  pub student_profile : String
  pub score : Option Decimal
  pub is_late : Bool

pub record Member : Type 0 where
  pub student_profile : String
  pub status : String

pub record Grade : Type 0 where
  pub score : Text
  pub feedback : Text
  pub feedback_open : Bool

abbrev pub GradeState : Type 0
GradeState = Dict Grade

unfoldable pub submission_status : Submission → SubmissionStatus
submission_status s = elim s.score [
  | some score ↦ graded
  | none ↦ if s.is_late then SubmissionStatus.late else SubmissionStatus.submitted
]

abbrev pub no_grade : Grade
no_grade = record { score = []; feedback = []; feedback_open = false }

abbrev pub or_no_grade : Option Grade → Grade
or_no_grade none = no_grade
or_no_grade (some g) = g

unfoldable pub grade_for : GradeState → String → Grade
grade_for grades id = or_no_grade (get id grades)

abbrev pub has_submitted : List Submission → String → Bool
has_submitted submissions student =
    any (λ (s : Submission). str_eq s.student_profile student) submissions

unfoldable pub pending_students : List Submission → List Member → List Member
pending_students submissions [] = []
pending_students submissions (m ∷ members) =
    let rest = pending_students submissions members in
    if str_eq m.status "active" && not (has_submitted submissions m.student_profile)
    then m ∷ rest
    else rest

abbrev pub is_status : SubmissionStatus → SubmissionStatus → Bool
is_status graded graded = true
is_status SubmissionStatus.late SubmissionStatus.late = true
is_status SubmissionStatus.submitted SubmissionStatus.submitted = true
is_status _ _ = false

-- `submissions.filter((s) => statusOf(s) === status)`
unfoldable pub with_status : SubmissionStatus → List Submission → List Submission
with_status status [] = []
with_status status (s ∷ ss) =
    let rest = with_status status ss in
    if is_status (submission_status s) status then s ∷ rest else rest

-- `tabs`: the number at each.
unfoldable pub tab_count : List Submission → List Member → FilterTab → ℕ
tab_count submissions members all =
    length submissions + length (pending_students submissions members)
tab_count submissions members submitted =
    length (with_status SubmissionStatus.submitted submissions)
tab_count submissions members pending = length (pending_students submissions members)
tab_count submissions members late = length (with_status SubmissionStatus.late submissions)

unfoldable pub filtered : List Submission → FilterTab → List Submission
filtered submissions all = submissions
filtered submissions pending = []
filtered submissions submitted = with_status SubmissionStatus.submitted submissions
filtered submissions late = with_status SubmissionStatus.late submissions

unfoldable pub handle_score : String → Text → GradeState → GradeState
handle_score id value grades = put id (record (grade_for grades id) { score = value }) grades

unfoldable pub handle_feedback : String → Text → GradeState → GradeState
handle_feedback id value grades = put id (record (grade_for grades id) { feedback = value }) grades

unfoldable pub toggle_feedback : String → GradeState → GradeState
toggle_feedback id grades =
    put id
      (record (grade_for grades id) { feedback_open = not (grade_for grades id).feedback_open })
      grades

-- The variables of `gradeMutation.mutateAsync`.
pub record GradeCall : Type 0 where
  pub id : String
  pub score : Decimal
  pub feedback : Option Text

-- `feedback || undefined`
abbrev pub or_undefined : Text → Option Text
or_undefined [] = none
or_undefined (c ∷ s) = some (c ∷ s)

-- `g.score !== '' && !isNaN(Number(g.score))`, with the number.
abbrev pub score_of : Text → Option Decimal
score_of [] = none
score_of (c ∷ s) = number_value (c ∷ s)

unfoldable pub typed_score : Grade → Option Decimal
typed_score g = score_of g.score

abbrev pub call_if : String → Grade → Option Decimal → List GradeCall
call_if id g none = []
call_if id g (some score) =
    record { id = id; score = score; feedback = or_undefined g.feedback } ∷ []

-- The call for a submission, by what is typed for it.
abbrev pub call_of : String → Option Grade → List GradeCall
call_of id none = []
call_of id (some g) = call_if id g (typed_score g)

-- The calls for `toSave`.
unfoldable pub grade_calls : GradeState → List Submission → List GradeCall
grade_calls grades [] = []
grade_calls grades (s ∷ ss) = call_of s.id (get s.id grades) ++ grade_calls grades ss

abbrev pub grades_notice : List Error → Notice
grades_notice [] = success (key "gradesSavedToast")
grades_notice (e ∷ later) = error (message_or "somethingWentWrong" e)

-- The toast, for the calls; `arrive` gives what they come to, in the order in which they come in.
unfoldable pub save_notice :
    {A : Type 0} → (List GradeCall → List (Outcome A)) → List GradeCall → Notice
save_notice arrive [] = error (key "enterScoreFirstToast")
save_notice arrive (c ∷ cs) = grades_notice (failures (arrive (c ∷ cs)))

-- The calls and the toast; what is typed is kept.
unfoldable pub handle_save :
    {A : Type 0}
    → (List GradeCall → List (Outcome A))
    → List Submission
    → GradeState
    → List GradeCall × Notice
handle_save arrive submissions grades =
    (grade_calls grades submissions, save_notice arrive (grade_calls grades submissions))

-- The rows of the table: the submissions, and behind them the students that have not submitted.
unfoldable pub pending_rows : List Submission → List Member → FilterTab → List Member
pending_rows submissions members all = pending_students submissions members
pending_rows submissions members pending = pending_students submissions members
pending_rows submissions members submitted = []
pending_rows submissions members late = []
