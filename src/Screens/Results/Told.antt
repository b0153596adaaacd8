-- ===== src/Screens/Results/Told.antt =====
-- What the toast of a results panel says of the calls.
use mentorio.Prelude.{
  ℕ, ◌≤◌, ◌<◌, some, List, [], ◌∷◌, map, length, All, Any, ◌≡◌, refl, inl, inr, arith, ltb, ltb→lt,
  suc, sym, Option, none, ◌≢◌, ◌⊎◌, ap, ◌∙◌, length-map, Bool-cases, String, true, false, ◌↔◌, all,
}
use mathlib.Core.Path.{subst}
use mentorio.Prelude.Text.{Text}
use mentorio.Prelude.Dict.{Dict, Entries}
use mentorio.Api.Students.{is_space}
use mentorio.Screens.Numbers.{has_entered_value, number_value}
use mentorio.Json.{Decimal}
use mentorio.Client.{Error, Outcome, ok, throw}
use mentorio.Screens.{Notice, key, counted, success, error, message_or, failures}
use mentorio.Screens.Results.{
  SaveVariables, ExamResult, Panel, Saving, report, handle_save, handle_save_results,
  entered_entries, save_calls, result_by_student,
}

abbrev pub Succeeded {ℓ} : {A : Type ℓ} → Outcome A → Type 0
Succeeded (ok v) = Unit
Succeeded (throw e) = ⊥

abbrev pub Failed {ℓ} : {A : Type ℓ} → Outcome A → Type 0
Failed (ok v) = ⊥
Failed (throw e) = Unit

module _ {A : Type 0} where
  -- The number of the calls that fail.
  abbrev pub failing : List (Outcome A) → ℕ
  failing [] = 0
  failing (ok v ∷ os) = failing os
  failing (throw e ∷ os) = suc (failing os)

  -- What a toast says of the outcomes: all calls succeeded; some failed, and how many; none
  -- succeeded, and why the first failed; or, where there was no call, that the results were saved.
  pub data Told (outcomes : List (Outcome A)) : Notice → Type 0 where
    nothing_sent : outcomes ≡ [] → Told outcomes (success (key "resultsSavedToast"))
    all_saved :
        outcomes ≢ [] → All Succeeded outcomes → Told outcomes (success (key "resultsSavedToast"))
    some_failed :
        (failed total : ℕ)
        → failed ≡ failing outcomes
        → total ≡ length outcomes
        → Any Succeeded outcomes
        → Any Failed outcomes
        → Told outcomes (error (counted "resultsPartiallySavedToast" failed total))
    none_saved :
        (e : Error)
        → (rest : List (Outcome A)) × (outcomes ≡ throw e ∷ rest)
        → All Failed outcomes
        → Told outcomes (error (message_or "somethingWentWrong" e))

  length-failures : (os : List (Outcome A)) → length (failures os) ≡ failing os
  unfolding failures
  length-failures [] = refl
  length-failures (ok v ∷ os) = length-failures os
  length-failures (throw e ∷ os) = omega (arith, length-failures os)

  failing-le-length : (os : List (Outcome A)) → failing os ≤ length os
  failing-le-length [] = omega arith
  failing-le-length (ok v ∷ os) = omega (arith, failing-le-length os)
  failing-le-length (throw e ∷ os) = omega (arith, failing-le-length os)

  failures-All : (os : List (Outcome A)) → failing os ≡ 0 → All Succeeded os
  failures-All [] h = tt
  failures-All (ok v ∷ os) h = (tt, failures-All os h)
  failures-All (throw e ∷ os) h = absurd (omega arith)

  failing-Any : (os : List (Outcome A)) → 0 < failing os → Any Failed os
  failing-Any [] h = absurd (omega arith)
  failing-Any (ok v ∷ os) h = inr (failing-Any os h)
  failing-Any (throw e ∷ os) h = inl tt

  failing-lt-length : (os : List (Outcome A)) → failing os < length os → Any Succeeded os
  failing-lt-length [] h = absurd (omega arith)
  failing-lt-length (ok v ∷ os) h = inl tt
  failing-lt-length (throw e ∷ os) h = inr (failing-lt-length os (omega arith))

  failing-All : (os : List (Outcome A)) → length os ≤ failing os → All Failed os
  failing-All [] h = tt
  failing-All (ok v ∷ os) h = absurd (omega (arith, failing-le-length os))
  failing-All (throw e ∷ os) h = (tt, failing-All os (omega arith))

  first_failure :
      (os : List (Outcome A)) (e : Error) (es : List Error)
      → failures os ≡ e ∷ es
      → length os ≤ failing os
      → (rest : List (Outcome A)) × (os ≡ throw e ∷ rest)
  unfolding failures
  first_failure [] e es f h = cc
  first_failure (ok v ∷ os) e es f h = absurd (omega (arith, failing-le-length os))
  first_failure (throw e' ∷ os) e es f h = (os, cc)

  report-cons :
      (os : List (Outcome A)) (e : Error) (es : List Error)
      → failures os ≡ e ∷ es
      → Told os (report (e ∷ es) (length os))
  unfolding report
  report-cons os e es f =
      let counted_right : length (e ∷ es) ≡ failing os = sym (ap length f) ∙ length-failures os in
      elim (Bool-cases (ltb (length (e ∷ es)) (length os))) [
        | inl fewer ↦ rw fewer (
            some_failed _ _ counted_right refl
              (failing-lt-length os (omega (arith, ltb→lt _ _ fewer)))
              (failing-Any os (omega arith)))
        | inr as_many ↦
            let every : length os ≤ failing os = ground arith in
            rw as_many (none_saved e (first_failure os e es f every) (failing-All os every))
      ]

  report-Told :
      (os : List (Outcome A)) (es : List Error) → failures os ≡ es → Told os (report es (length os))
  unfolding report
  report-Told [] [] f = nothing_sent refl
  report-Told (o ∷ os) [] f =
      all_saved (λ e. cc) (failures-All (o ∷ os) (sym (length-failures (o ∷ os)) ∙ ap length f))
  report-Told os (e ∷ es) f = report-cons os e es f

-- A text that is nothing but spaces.
abbrev pub IsBlank : Text → Type 0
IsBlank value = All (λ c. is_space c ≡ true) value

-- The calls for what stands in the inputs, in their order: one for each input that is not blank and
-- reads as a number, for the input's student and with that number, and none for any other.
pub data Asks : Dict Text → List SaveVariables → Type 0 where
  at_end : Asks [] []
  left_out :
      {more : Dict Text} {calls : List SaveVariables} (student : String) (value : Text)
      → IsBlank value ⊎ (number_value value ≡ none)
      → Asks more calls
      → Asks ((student, value) ∷ more) calls
  asked :
      {more : Dict Text} {calls : List SaveVariables} (student : String) (value : Text)
      (c : SaveVariables)
      → ¬ IsBlank value
      → c.student_profile_id ≡ student
      → number_value value ≡ some c.score
      → Asks more calls
      → Asks ((student, value) ∷ more) (c ∷ calls)

has_entered_value_iff : (value : Text) → (has_entered_value (some value) ≡ false) ↔ IsBlank value
unfolding has_entered_value
has_entered_value_iff value = (λ h. to value (ground arith), λ h. rw (from value h) refl)
  where
    to : (value : Text) → all is_space value ≡ true → IsBlank value
    to [] h = tt
    to (c ∷ s) h = ground (arith, to s)

    from : (value : Text) → IsBlank value → all is_space value ≡ true
    from [] h = refl
    from (c ∷ s) (h, hs) = ground (arith, from s hs)

module _ (organization_id exam_id : String) (found : Dict ExamResult) where
  calls-cons :
      (student : String) (value : Text) (more : Dict Text) (read : Option Decimal)
      → number_value value ≡ read
      → ¬ IsBlank value
      → Asks more (save_calls organization_id exam_id found (entered_entries more))
      → Asks
          ((student, value) ∷ more)
          (save_calls organization_id exam_id found ((student, value) ∷ entered_entries more))
  unfolding save_calls
  calls-cons student value more none nan given rest =
      rw (nan, save_calls) (left_out student value (inr nan) rest)
  calls-cons student value more (some score) e given rest =
      rw (e, save_calls) (asked student value _ given refl e rest)

  save_calls-Asks :
      (inputs : Dict Text)
      → Asks inputs (save_calls organization_id exam_id found (entered_entries inputs))
  unfolding save_calls entered_entries
  save_calls-Asks [] = at_end
  save_calls-Asks ((student, value) ∷ more) =
      let rest = save_calls-Asks more in
      elim (Bool-cases (has_entered_value (some value))) [
        | inr blank ↦
            rw blank (left_out student value (inl ((has_entered_value_iff value).0 blank)) rest)
        | inl entered ↦ rw entered (
            calls-cons student value more (number_value value) refl
              (λ h. cc (entered, (has_entered_value_iff value).1 h)) rest)
      ]

-- Some input is not blank.
abbrev pub HasEntry : Dict Text → Type 0
HasEntry inputs = ¬ Entries (λ _ value. IsBlank value) inputs

entered_entries-eq-nil_iff :
    (inputs : Dict Text) → (entered_entries inputs ≡ []) ↔ Entries (λ _ value. IsBlank value) inputs
unfolding entered_entries
entered_entries-eq-nil_iff [] = (λ _. tt, λ _. refl)
entered_entries-eq-nil_iff ((student, value) ∷ more) =
    elim (Bool-cases (has_entered_value (some value))) [
      | inr blank ↦ rw blank (
        λ e. ((has_entered_value_iff value).0 blank, (entered_entries-eq-nil_iff more).0 e),
        λ h. (entered_entries-eq-nil_iff more).1 h.1,
      )
      | inl entered ↦ rw entered (λ e. cc, λ h. cc (entered, (has_entered_value_iff value).1 h.0))
    ]

module _ {A : Type 0} (answer : SaveVariables → Outcome A) (organization_id exam_id : String) where
  -- The handler called what the inputs ask for, and the calls came out as its toast says.
  abbrev pub SavedAsTold : Panel → Saving → Type 0
  SavedAsTold p saved =
      Asks p.results saved.calls
      × ((notice : Notice) × (saved.notice ≡ some notice) × Told (map answer saved.calls) notice)

  -- On the teacher's panel a save makes one call for each input that is not blank and reads as a
  -- number, in their order and with that number, and no other call. It always shows a toast: all
  -- calls succeeded; some failed, and exactly how many of them; or all failed, and why the first did.
  -- With no call at all the toast says, too, that the results were saved.
  pub handle_save-SavedAsTold :
      (stored : List ExamResult) (p : Panel)
      → SavedAsTold p (handle_save answer organization_id exam_id stored p)
  unfolding handle_save
  handle_save-SavedAsTold stored p =
      let saved = handle_save answer organization_id exam_id stored p in
      let outcomes = map answer saved.calls in
      (
        save_calls-Asks organization_id exam_id (result_by_student stored []) p.results,
        (
          report (failures outcomes) (length saved.calls),
          refl,
          subst (λ n. Told outcomes (report (failures outcomes) n)) (length-map answer saved.calls)
              (report-Told outcomes (failures outcomes) refl),
        ),
      )

  handle_save_results-entered :
      (stored : List ExamResult) (p : Panel) (entry : String × Text) (more : Dict Text)
      → entered_entries p.results ≡ entry ∷ more
      → handle_save_results answer organization_id exam_id stored p
        ≡ handle_save answer organization_id exam_id stored p
  unfolding handle_save_results
  handle_save_results-entered stored p entry more e = rw (e, handle_save_results) refl

  handle_save_results-nothing :
      (stored : List ExamResult) (p : Panel)
      → entered_entries p.results ≡ []
      → handle_save_results answer organization_id exam_id stored p
        ≡ record { calls = []; notice = none; panel = p }
  unfolding handle_save_results
  handle_save_results-nothing stored p e = rw (e, handle_save_results) refl

  -- What the administrator's panel does, in terms of the teacher's.
  abbrev pub SavedIfEntered : List ExamResult → Panel → Saving → Type 0
  SavedIfEntered stored p saved =
      (Entries (λ _ value. IsBlank value) p.results
        × (saved ≡ record { calls = []; notice = none; panel = p }))
      ⊎ (HasEntry p.results × (saved ≡ handle_save answer organization_id exam_id stored p))

  -- On the administrator's panel a save makes no call, shows no toast and leaves the panel as it is
  -- if every input is blank; if some input is not, a score of 0 for example, it does all that a save
  -- on the teacher's panel does.
  pub handle_save_results-SavedIfEntered :
      (stored : List ExamResult) (p : Panel)
      → SavedIfEntered stored p (handle_save_results answer organization_id exam_id stored p)
  handle_save_results-SavedIfEntered stored p = by_entries (entered_entries p.results) refl
    where
      by_entries :
          (entries : Dict Text)
          → entered_entries p.results ≡ entries
          → SavedIfEntered stored p (handle_save_results answer organization_id exam_id stored p)
      by_entries [] e =
          inl ((entered_entries-eq-nil_iff p.results).0 e, handle_save_results-nothing stored p e)
      by_entries (entry ∷ more) e = inr (
        λ blank. cc (e, (entered_entries-eq-nil_iff p.results).1 blank),
        handle_save_results-entered stored p entry more e,
      )

  -- On the teacher's panel a save with nothing entered makes no call, and its toast says that the
  -- results were saved.
  pub handle_save-nothing :
      (stored : List ExamResult) (p : Panel)
      → entered_entries p.results ≡ []
      → let saved = handle_save answer organization_id exam_id stored p in
        (saved.calls ≡ []) × (saved.notice ≡ some (success (key "resultsSavedToast")))
  unfolding handle_save save_calls failures report
  handle_save-nothing stored p e =
      (rw (e, save_calls) refl, rw (e, save_calls, failures, report) refl)
