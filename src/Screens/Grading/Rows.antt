-- ===== src/Screens/Grading/Rows.antt =====
-- The numbers at the tabs of the submissions panel against its rows.
use mentorio.Prelude.{suc, ◌+◌, List, [], ◌∷◌, length, ◌≡◌, refl, arith}
use mentorio.Screens.Grading.{
  FilterTab, all, submitted, pending, late, SubmissionStatus, graded, Submission, Member,
  submission_status, with_status, tab_count, filtered, pending_rows,
}

-- Every submission has exactly one of the three states.
length-with_status :
    (ss : List Submission)
    → length (with_status graded ss)
        + length (with_status SubmissionStatus.late ss)
        + length (with_status SubmissionStatus.submitted ss)
      ≡ length ss
unfolding with_status
length-with_status [] = refl
length-with_status (s ∷ ss) = by_status (submission_status s) refl (length-with_status ss)
  where
    by_status :
        (status : SubmissionStatus)
        → submission_status s ≡ status
        → length (with_status graded ss)
            + length (with_status SubmissionStatus.late ss)
            + length (with_status SubmissionStatus.submitted ss)
          ≡ length ss
        → length (with_status graded (s ∷ ss))
            + length (with_status SubmissionStatus.late (s ∷ ss))
            + length (with_status SubmissionStatus.submitted (s ∷ ss))
          ≡ suc (length ss)
    by_status graded e rest = rw e (omega arith)
    by_status SubmissionStatus.late e rest = rw e (omega arith)
    by_status SubmissionStatus.submitted e rest = rw e (omega arith)

-- At every tab stands the number of the rows that it shows. The first tab counts what the three
-- others count and the graded submissions, each once.
pub tab_count-rows :
    (ss : List Submission) (members : List Member) (tab : FilterTab)
    → (tab_count ss members tab ≡ length (filtered ss tab) + length (pending_rows ss members tab))
      × (tab_count ss members all
          ≡ tab_count ss members submitted
            + tab_count ss members pending
            + tab_count ss members late
            + length (with_status graded ss))
unfolding tab_count filtered pending_rows
tab_count-rows ss members all = (refl, omega (arith, length-with_status ss))
tab_count-rows ss members submitted = (omega arith, omega (arith, length-with_status ss))
tab_count-rows ss members pending = (omega arith, omega (arith, length-with_status ss))
tab_count-rows ss members late = (omega arith, omega (arith, length-with_status ss))
