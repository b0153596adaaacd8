-- ===== src/Screens/Results/Sent.antt =====
-- Which calls a results panel makes for a student, whatever was typed for the others.
use mentorio.Prelude.{
  true, false, Option, none, some, List, [], ◌∷◌, ◌++◌, String, ◌≡◌, ◌≢◌, refl, sym, ap, ◌∙◌, inl,
  inr, if◌then◌else◌, str_eq, Bool-cases, Option-cases, arith, eq_iff, All,
}
use mathlib.Core.Path.{subst}
use mathlib.Core.List.{append-nil}
use mentorio.Prelude.Text.{Text}
use mentorio.Prelude.Dict.{
  Dict, get, get-put_self, get-put_ne, put, IsDistinct, Absent, get-Absent, put-IsDistinct,
}
use mentorio.Json.{Decimal}
use mentorio.Client.{Outcome}
use mentorio.Screens.Numbers.{has_entered_value, number_value}
use mentorio.Screens.Results.{
  SaveVariables, ExamResult, Panel, result_by_student, handle_score, entered_entries,
  save_variables, save_calls, handle_save, existing_id,
}

-- The calls for one student.
unfoldable pub calls_for : String → List SaveVariables → List SaveVariables
calls_for student [] = []
calls_for student (c ∷ cs) =
    let rest = calls_for student cs in
    if str_eq c.student_profile_id student then c ∷ rest else rest

module _ (organization_id exam_id : String) (found : Dict ExamResult) where
  -- The call that an input asks for: one if it holds a number, none otherwise.
  abbrev pub one_call : String → Option Decimal → List SaveVariables
  one_call student none = []
  one_call student (some score) = save_variables organization_id exam_id found student score ∷ []

  abbrev pub call_of : String → Option Text → List SaveVariables
  call_of student none = []
  call_of student (some value) =
      if has_entered_value (some value) then one_call student (number_value value) else []

  abbrev sent : Dict Text → List SaveVariables
  sent inputs = save_calls organization_id exam_id found (entered_entries inputs)

  sent-cons :
      (student : String) (value : Text) (more : Dict Text)
      → sent ((student, value) ∷ more) ≡ call_of student (some value) ++ sent more
  unfolding entered_entries save_calls
  sent-cons student value more = elim (Bool-cases (has_entered_value (some value))) [
    | inl entered ↦ elim (Option-cases (number_value value)) [
      | inl nan ↦ ground arith
      | inr (score, e) ↦ ground arith
    ]
    | inr blank ↦ ground arith
  ]

  calls_for-call_of :
      (student other : String) (value : Option Text) (cs : List SaveVariables)
      → calls_for student (call_of other value ++ cs) ≡ (
          if str_eq other student
          then call_of other value ++ calls_for student cs
          else calls_for student cs)
  unfolding calls_for
  calls_for-call_of student other none cs = ground arith
  calls_for-call_of student other (some value) cs =
      elim (Bool-cases (has_entered_value (some value))) [
        | inl entered ↦ elim (Option-cases (number_value value)) [
          | inl nan ↦ ground arith
          | inr (score, e) ↦ ground arith
        ]
        | inr blank ↦ ground arith
      ]

  calls_for-sent :
      (student : String) (inputs : Dict Text)
      → IsDistinct inputs
      → calls_for student (sent inputs) ≡ call_of student (get student inputs)
  unfolding get calls_for entered_entries save_calls
  calls_for-sent student [] h = refl
  calls_for-sent student ((other, value) ∷ more) (absent, h) =
      let rest = calls_for-sent student more h in
      rw (sent-cons other value more, calls_for-call_of student other (some value) (sent more))
        elim (Bool-cases (str_eq other student)) [
          | inl here ↦
              let same = (eq_iff other student).0 here in
              let none_behind : calls_for student (sent more) ≡ [] =
                rest
                ∙ ap (call_of student)
                    (get-Absent student more (subst (λ k. Absent k more) same absent)) in
              rw (here, none_behind)
                (append-nil (call_of other (some value)) ∙ ap (λ k. call_of k (some value)) same)
          | inr there ↦ rw there rest
        ]

-- The identifier of the last of the stored results that is the student's, if there is one.
pub data LatestId (student : String) : List ExamResult → Option String → Type 0 where
  not_stored :
      (stored : List ExamResult)
      → All (λ (r : ExamResult). r.student_profile ≢ student) stored
      → LatestId student stored none
  stored_last :
      (before after : List ExamResult) (r : ExamResult)
      → r.student_profile ≡ student
      → All (λ (r : ExamResult). r.student_profile ≢ student) after
      → LatestId student (before ++ r ∷ after) (some r.id)

result_by_student-others :
    (student : String) (stored : List ExamResult) (found : Dict ExamResult)
    → All (λ (r : ExamResult). r.student_profile ≢ student) stored
    → get student (result_by_student stored found) ≡ get student found
unfolding result_by_student
result_by_student-others student [] found h = refl
result_by_student-others student (r ∷ rs) found (ne, h) =
    result_by_student-others student rs (put r.student_profile r found) h
    ∙ get-put_ne r.student_profile student r found ne

result_by_student-stored :
    (before after : List ExamResult) (r : ExamResult) (found : Dict ExamResult)
    → All (λ (q : ExamResult). q.student_profile ≢ r.student_profile) after
    → get r.student_profile (result_by_student (before ++ r ∷ after) found) ≡ some r
unfolding result_by_student
result_by_student-stored [] after r found h =
    result_by_student-others r.student_profile after (put r.student_profile r found) h
    ∙ get-put_self r.student_profile r found
result_by_student-stored (q ∷ before) after r found h =
    result_by_student-stored before after r (put q.student_profile q found) h

existing_id-LatestId :
    (student : String) (stored : List ExamResult) (latest : Option String)
    → LatestId student stored latest
    → existing_id student (result_by_student stored []) ≡ latest
unfolding get existing_id
existing_id-LatestId student _ _ (not_stored stored h) =
    rw (result_by_student-others student stored [] h, existing_id) refl
existing_id-LatestId student _ _ (stored_last before after r e h) =
    let found : get student (result_by_student (before ++ r ∷ after) []) ≡ some r =
      subst (λ s. get s (result_by_student (before ++ r ∷ after) []) ≡ some r) e
        (result_by_student-stored before after r []
          (subst (λ s. All (λ (q : ExamResult). q.student_profile ≢ s) after) (sym e) h)) in
    rw (found, existing_id) refl

module _ {A : Type 0} (answer : SaveVariables → Outcome A) (organization_id exam_id : String) where
  abbrev pub calls_on_save : List ExamResult → Panel → String → List SaveVariables
  calls_on_save stored p student =
      calls_for student (handle_save answer organization_id exam_id stored p).calls

  calls_on_save_lem :
      (stored : List ExamResult) (p : Panel) (student : String)
      → IsDistinct p.results
      → calls_on_save stored p student
        ≡ call_of organization_id exam_id
            (result_by_student stored [])
            student
            (get student p.results)
  unfolding handle_save
  calls_on_save_lem stored p student h =
      calls_for-sent organization_id exam_id (result_by_student stored []) student p.results h

  -- After a text that reads as a number is typed for a student, on a panel that holds no student
  -- twice, a save makes exactly one call for that student, for the panel's organization and exam,
  -- with that score and the identifier of the last stored result of the student, or none if none is
  -- stored; the calls for any other student are those that a save before the typing makes.
  pub handle_score-handle_save :
      (stored : List ExamResult) (p : Panel) (student other : String) (value : Text)
      (score : Decimal) (latest : Option String)
      → IsDistinct p.results
      → LatestId student stored latest
      → has_entered_value (some value) ≡ true
      → number_value value ≡ some score
      → student ≢ other
      → (calls_on_save stored (handle_score student value p) student
          ≡ record {
            organization_id = organization_id;
            exam_id = exam_id;
            student_profile_id = student;
            existing_result_id = latest;
            score = score;
          }
            ∷ [])
        × (calls_on_save stored (handle_score student value p) other ≡ calls_on_save stored p other)
  unfolding handle_score
  handle_score-handle_save stored p student other value score latest h its_latest entered read ne =
      let found = result_by_student stored [] in
      let typed = handle_score student value p in
      let h' : IsDistinct typed.results = put-IsDistinct student value p.results h in
      (
        calls_on_save_lem stored typed student h'
            ∙ ap (call_of organization_id exam_id found student)
                (get-put_self student value p.results)
            ∙ rw (entered, read, existing_id-LatestId student stored latest its_latest) refl,
        calls_on_save_lem stored typed other h'
            ∙ ap (call_of organization_id exam_id found other)
                (get-put_ne student other value p.results ne)
            ∙ sym (calls_on_save_lem stored p other h),
      )

  -- An input that is emptied is not sent.
  handle_score-blank :
      (stored : List ExamResult) (p : Panel) (student : String) (value : Text)
      → IsDistinct p.results
      → has_entered_value (some value) ≡ false
      → calls_on_save stored (handle_score student value p) student ≡ []
  unfolding handle_score
  handle_score-blank stored p student value h blank =
      calls_on_save_lem stored (handle_score student value p) student
        (put-IsDistinct student value p.results h)
      ∙ ap (call_of organization_id exam_id (result_by_student stored []) student)
          (get-put_self student value p.results)
      ∙ rw blank refl
