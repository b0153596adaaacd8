-- ===== src/Screens/Tests.antt =====
-- The screens at concrete inputs.
use mentorio.Prelude.{
  true, false, none, some, List, [], ◌∷◌, String, ◌≡◌, ◌≢◌, refl, sym, if◌then◌else◌, str_eq, map,
  eq_iff,
}
use mathlib.Core.Bool.{false≢true}
use mentorio.Prelude.Int.{pos, negsuc}
use mentorio.Prelude.Text.{codes}
use mentorio.Json.{str, Decimal}
use mentorio.Api.Students.{is_space}
use mentorio.Client.{Outcome, ok, throw, api_error, Error}
use mentorio.Screens.Numbers.{
  without_dots, sanitize_numeric, has_entered_value, number_value, plain_number,
}
use mentorio.Screens.Numbers.Laws.{IsNumeric, digits, sanitize_numeric-IsNumeric}
use mentorio.Screens.Results
use mentorio.Screens.Results.{
  SaveVariables, ExamResult, Panel, handle_score, save_variables, result_by_student,
}
use mentorio.Screens.Results.Told.{
  SavedAsTold, SavedIfEntered, handle_save-SavedAsTold, handle_save_results-SavedIfEntered,
}
use mentorio.Screens.Results.Sent.{calls_on_save, LatestId, stored_last, handle_score-handle_save}
use mentorio.Screens.Attendance
use mentorio.Screens.Attendance.{
  AttendanceRecord, present, late, Sheet, SaveCall, status_for, notes_for, set_notes,
}
use mentorio.Screens.Attendance.Edited.{SameFor, set_notes-status_for}
use mentorio.Screens.Attendance.Saved.{SavesAll, handle_save-SavesAll}

abbrev refused : Error
refused =
    api_error
      (record { message = str (codes "Score is too high."); status = 400; field_errors = none })

-- The results of Ann are saved, those of the others are refused.
abbrev saves_ann : SaveVariables → Outcome (Unit {0})
saves_ann c = if str_eq c.student_profile_id "ann" then ok tt else throw refused

abbrev stored : List ExamResult
stored =
    record { id = "result-1"; student_profile = "ann"; score = none }
    ∷ record { id = "result-2"; student_profile = "ann"; score = some (codes "60") }
    ∷ record { id = "result-3"; student_profile = "bob"; score = some (codes "60") }
    ∷ []

abbrev two_scores : Panel
two_scores = record {
  results = ("ann", codes "") ∷ ("bob", codes "70") ∷ [];
  seeded = true;
  saving = false;
}

handle_save-SavedAsTold_example :
    SavedAsTold saves_ann "org-1" "exam-1" two_scores
      (Results.handle_save saves_ann "org-1" "exam-1" stored two_scores)
handle_save-SavedAsTold_example =
    handle_save-SavedAsTold saves_ann "org-1" "exam-1" stored two_scores

handle_save_results-SavedIfEntered_example :
    SavedIfEntered saves_ann "org-1" "exam-1" stored two_scores
      (Results.handle_save_results saves_ann "org-1" "exam-1" stored two_scores)
handle_save_results-SavedIfEntered_example =
    handle_save_results-SavedIfEntered saves_ann "org-1" "exam-1" stored two_scores

abbrev eighty_seven_half : Decimal
eighty_seven_half = record { units = pos 875; scale = 1 }

half_read : number_value (codes "87.5") ≡ some eighty_seven_half
unfolding number_value is_space plain_number
half_read = refl

half_entered : has_entered_value (some (codes "87.5")) ≡ true
unfolding has_entered_value is_space
half_entered = refl

ann-ne-bob : ◌≢◌ {A = String} "ann" "bob"
ann-ne-bob e = false≢true ((eq_iff "ann" "bob").1 e)

ann-LatestId : LatestId "ann" stored (some "result-2")
ann-LatestId =
    stored_last (record { id = "result-1"; student_profile = "ann"; score = none } ∷ [])
      (record { id = "result-3"; student_profile = "bob"; score = some (codes "60") } ∷ [])
      (record { id = "result-2"; student_profile = "ann"; score = some (codes "60") }) refl
      ((λ e. ann-ne-bob (sym e)), tt)

handle_score-handle_save_example :
    (calls_on_save saves_ann "org-1" "exam-1" stored
        (handle_score "ann" (codes "87.5") two_scores)
        "ann"
      ≡ record {
        organization_id = "org-1";
        exam_id = "exam-1";
        student_profile_id = "ann";
        existing_result_id = some "result-2";
        score = eighty_seven_half;
      }
        ∷ [])
    × (calls_on_save saves_ann "org-1" "exam-1" stored
          (handle_score "ann" (codes "87.5") two_scores)
          "bob"
        ≡ calls_on_save saves_ann "org-1" "exam-1" stored two_scores "bob")
handle_score-handle_save_example =
    handle_score-handle_save saves_ann "org-1" "exam-1" stored two_scores "ann" "bob" (codes "87.5")
      eighty_seven_half (some "result-2") (((λ e. ann-ne-bob (sym e)), tt), (tt, tt)) ann-LatestId
      half_entered half_read ann-ne-bob

pasted : sanitize_numeric (codes "1,000.5.0") ≡ codes "1000.50"
unfolding sanitize_numeric without_dots
pasted = refl

sanitize_numeric-IsNumeric_example :
    IsNumeric (sanitize_numeric (codes "1,000.5.0"))
    × (digits (sanitize_numeric (codes "1,000.5.0")) ≡ digits (codes "1,000.5.0"))
    × (sanitize_numeric (sanitize_numeric (codes "1,000.5.0"))
        ≡ sanitize_numeric (codes "1,000.5.0"))
sanitize_numeric-IsNumeric_example = sanitize_numeric-IsNumeric (codes "1,000.5.0")

negative_read : number_value (codes " -1.5e2 ") ≡ some (record { units = negsuc 1499; scale = 1 })
unfolding number_value is_space plain_number
negative_read = refl

abbrev today_sheet : Sheet
today_sheet = record {
  session_records =
      record { id = "record-1"; student_profile = "bob"; status = late; notes = none } ∷ [];
  is_editable = true;
  draft = [];
  saving = false;
}

abbrev all_arrive : List SaveCall → List (Outcome (Unit {0}))
all_arrive calls = map (λ c. ok tt) calls

handle_save-SavesAll_example :
    SavesAll all_arrive
      ("ann" ∷ "bob" ∷ [])
      today_sheet
      (Attendance.handle_save all_arrive true ("ann" ∷ "bob" ∷ []) today_sheet)
handle_save-SavesAll_example = handle_save-SavesAll all_arrive ("ann" ∷ "bob" ∷ []) today_sheet refl

set_notes-status_for_example :
    (notes_for "ann" (set_notes "ann" (codes "Came at ten.") today_sheet) ≡ codes "Came at ten.")
    × (status_for "ann" (set_notes "ann" (codes "Came at ten.") today_sheet)
        ≡ status_for "ann" today_sheet)
    × SameFor "bob" (set_notes "ann" (codes "Came at ten.") today_sheet) today_sheet
set_notes-status_for_example =
    set_notes-status_for "ann" "bob" (codes "Came at ten.") today_sheet refl ann-ne-bob
