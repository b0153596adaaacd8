-- ===== src/Screens/Results.antt =====
-- The results panels of exams: frontend/app/teacher/exams/page.tsx and
-- frontend/app/(admin)/exams/_components/exam-results-panel.tsx.
pub mod Told
pub mod Sent
use mentorio.Prelude.{
  ℕ, Bool, true, false, ◌&&◌, ◌||◌, not, Option, none, some, List, [], ◌∷◌, String, if◌then◌else◌,
  ltb, length, map,
}
use mentorio.Prelude.Text.{Text}
use mentorio.Prelude.Dict.{Dict, get, put}
use mentorio.Json.{Decimal}
use mentorio.Client.{Error, Outcome}
use mentorio.Screens.{Message, key, counted, Notice, success, error, message_or, failures}
use mentorio.Screens.Numbers.{has_entered_value, number_value}

-- A stored result; its score is the text that `String` writes.
pub record ExamResult : Type 0 where
  pub id : String
  pub student_profile : String
  pub score : Option Text

-- The panel's state: what stands in the inputs, by student.
pub record Panel : Type 0 where
  pub results : Dict Text
  pub seeded : Bool
  pub saving : Bool

-- The variables of `saveResult.mutateAsync`.
pub record SaveVariables : Type 0 where
  pub organization_id : String
  pub exam_id : String
  pub student_profile_id : String
  pub existing_result_id : Option String
  pub score : Decimal

-- The last of several results of a student counts.
unfoldable pub result_by_student : List ExamResult → Dict ExamResult → Dict ExamResult
result_by_student [] found = found
result_by_student (r ∷ rs) found = result_by_student rs (put r.student_profile r found)

abbrev seed_text : Option ExamResult → Text
seed_text none = []
seed_text (some r) = elim r.score [ none ↦ [] | some text ↦ text ]

unfoldable pub seed_inputs : Dict ExamResult → List String → Dict Text → Dict Text
unfolding get put
seed_inputs found [] inputs = inputs
seed_inputs found (student ∷ students) inputs =
    seed_inputs found students (put student (seed_text (get student found)) inputs)

-- The effect that runs at each rendering.
unfoldable pub seed : Bool → Bool → List String → List ExamResult → Panel → Panel
unfolding seed_inputs result_by_student
seed members_loaded results_loaded students stored p =
    if p.seeded || (not members_loaded || not results_loaded)
    then p
    else record p { results = seed_inputs (result_by_student stored []) students []; seeded = true }

unfoldable pub handle_score : String → Text → Panel → Panel
handle_score student value p = record p { results = put student value p.results }

unfoldable pub entered_entries : Dict Text → Dict Text
entered_entries [] = []
entered_entries ((student, value) ∷ more) =
    let rest = entered_entries more in
    if has_entered_value (some value) then (student, value) ∷ rest else rest

-- `resultByStudent.get(studentProfileId)?.id ?? null`
unfoldable pub existing_id : String → Dict ExamResult → Option String
existing_id student found = elim (get student found) [ none ↦ none | some r ↦ some r.id ]

module _ (organization_id exam_id : String) (found : Dict ExamResult) where
  abbrev pub save_variables : String → Decimal → SaveVariables
  save_variables student score = record {
    organization_id = organization_id;
    exam_id = exam_id;
    student_profile_id = student;
    existing_result_id = existing_id student found;
    score = score;
  }

  -- The calls for `toSave`: an entry that is no number is left out.
  unfoldable pub save_calls : Dict Text → List SaveVariables
  save_calls [] = []
  save_calls ((student, value) ∷ more) =
      let rest = save_calls more in
      elim (number_value value) [ none ↦ rest | some score ↦ save_variables student score ∷ rest ]

-- The toast, from the errors of the calls that failed and the number of the calls.
unfoldable pub report : List Error → ℕ → Notice
report [] total = success (key "resultsSavedToast")
report (e ∷ failed) total =
    if ltb (length (e ∷ failed)) total
    then error (counted "resultsPartiallySavedToast" (length (e ∷ failed)) total)
    else error (message_or "somethingWentWrong" e)

-- What a handler does: the calls, the toast and the state behind them.
pub record Saving : Type 0 where
  pub calls : List SaveVariables
  pub notice : Option Notice
  pub panel : Panel

-- `answer` is what each call comes to; `Promise.allSettled` lists it in the order of the calls.
module _ {A : Type 0} (answer : SaveVariables → Outcome A) (organization_id exam_id : String) where
  -- The teacher's panel.
  unfoldable pub handle_save : List ExamResult → Panel → Saving
  handle_save stored p =
      let calls =
        save_calls organization_id exam_id (result_by_student stored [])
          (entered_entries p.results) in
      record {
        calls = calls;
        notice = some (report (failures (map answer calls)) (length calls));
        panel = record p { saving = false };
      }

  -- The administrator's panel.
  unfoldable pub handle_save_results : List ExamResult → Panel → Saving
  handle_save_results stored p = elim (entered_entries p.results) [
    | [] ↦ record { calls = []; notice = none; panel = p }
    | _ ∷ _ ↦ handle_save stored p
  ]
