-- ===== src/Screens/Grading/Graded.antt =====
-- What a save of the submissions panel sends, and what it loses.
use mathlib.Core.Path.{subst}
use mentorio.Prelude.{
  not, Option, none, some, List, [], ◌∷◌, String, ◌≡◌, refl, sym, ap, ◌∙◌, inl, inr, Bool-cases,
  str_eq, eq_iff,
}
use mentorio.Prelude.Text.{Text}
use mentorio.Prelude.Dict.{get, put, get-put, get-put_self}
use mentorio.Screens.Grading.{
  Submission, Grade, GradeState, grade_for, or_no_grade, handle_feedback, toggle_feedback, score_of,
  typed_score, call_if, call_of, grade_calls,
}

-- The same is sent for a submission.
abbrev pub SameCall : String → GradeState → GradeState → Type 0
SameCall id g h = call_of id (get id g) ≡ call_of id (get id h)

grade_calls-same :
    (g h : GradeState)
    → ((id : String) → SameCall id g h)
    → (ss : List Submission) → grade_calls g ss ≡ grade_calls h ss
unfolding grade_calls
grade_calls-same g h same [] = refl
grade_calls-same g h same (s ∷ ss) = rw (same s.id, grade_calls-same g h same ss) refl

-- A grade that is put for one submission changes the call for no other.
put-SameCall :
    (id : String) (grade : Grade) (g : GradeState)
    → call_of id (some grade) ≡ call_of id (get id g)
    → (other : String) → SameCall other (put id grade g) g
put-SameCall id grade g here other = elim (Bool-cases (str_eq id other)) [
  | inl same ↦
      subst (λ k. SameCall k (put id grade g) g) ((eq_iff id other).0 same)
        (ap (call_of id) (get-put_self id grade g) ∙ here)
  | inr ne ↦ ap (call_of other) (rw ne at (get-put id other grade g))
]

-- What is sent with no score typed: nothing, whatever else is.
call_of-no_score : (id : String) (grade : Grade) → grade.score ≡ [] → call_of id (some grade) ≡ []
unfolding typed_score
call_of-no_score id grade blank = ap (λ t. call_if id grade (score_of t)) blank

call_of-no_grade : (id : String) (o : Option Grade) → (or_no_grade o).score ≡ [] → call_of id o ≡ []
call_of-no_grade id none blank = refl
call_of-no_grade id (some g) blank = call_of-no_score id g blank

-- Opening the box of the feedback changes nothing of what a save sends.
toggled :
    (id : String) (o : Option Grade)
    → call_of id
        (some (record (or_no_grade o) { feedback_open = not (or_no_grade o).feedback_open }))
      ≡ call_of id o
unfolding typed_score
toggled id none = refl
toggled id (some g) = refl

-- Opening or closing the box of a submission's feedback changes nothing of what a save sends.
pub toggle_feedback-grade_calls :
    (id : String) (g : GradeState) (ss : List Submission)
    → grade_calls (toggle_feedback id g) ss ≡ grade_calls g ss
unfolding toggle_feedback grade_for
toggle_feedback-grade_calls id g ss =
    grade_calls-same _ g (put-SameCall id _ g (toggled id (get id g))) ss

-- Feedback that is typed for a submission whose score is not typed anew is not sent by a save, though
-- the submission may have a score; the save sends what it would have sent without it.
pub handle_feedback-grade_calls :
    (id : String) (feedback : Text) (g : GradeState) (ss : List Submission)
    → (grade_for g id).score ≡ []
    → grade_calls (handle_feedback id feedback g) ss ≡ grade_calls g ss
unfolding handle_feedback grade_for
handle_feedback-grade_calls id feedback g ss blank =
    grade_calls-same _ g
      (put-SameCall id _ g
        (call_of-no_score id _ blank ∙ sym (call_of-no_grade id (get id g) blank)))
      ss
