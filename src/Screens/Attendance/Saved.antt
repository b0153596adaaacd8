-- ===== src/Screens/Attendance/Saved.antt =====
-- What a save of the sheet sends.
use mentorio.Prelude.{
  Bool, true, false, ◌&&◌, Option, none, some, List, [], ◌∷◌, map, String, ◌≡◌, refl, inl, inr, sym,
  Option-cases,
}
use mathlib.Core.Path.{subst}
use mentorio.Prelude.Dict.{get}
use mentorio.Client.{Error, Outcome}
use mentorio.Screens.{key, Notice, success, error, message_or, failures}
use mentorio.Screens.Attendance.{
  AttendanceStatus, present, AttendanceRecord, Mark, status_from, Sheet, SaveCall, update, create,
  Saving, find_record, status_for, notes_for, or_present, save_call, settle_save, handle_save,
}

-- What is right to send for a student: what the sheet shows, as a change of the record of the session
-- if there is one, and as a new record otherwise.
pub data Sends (s : Sheet) (student : String) : SaveCall → Type 0 where
  updated :
      (r : AttendanceRecord) (status : AttendanceStatus)
      → find_record student s.session_records ≡ some r
      → status_for student s ≡ some status
      → Sends s student (update r.id status (notes_for student s))
  created :
      (status : AttendanceStatus)
      → find_record student s.session_records ≡ none
      → status_for student s ≡ some status
      → Sends s student (create student status (notes_for student s))

-- One call for each student, in their order.
abbrev pub SendsAll : Sheet → List String → List SaveCall → Type 0
SendsAll s [] [] = Unit
SendsAll s (m ∷ members) (c ∷ calls) = Sends s m c × SendsAll s members calls
SendsAll s _ _ = ⊥

-- The sheet after the calls: the draft is gone if all succeeded, and is kept otherwise, with the toast
-- of the failure that came in first.
pub data Settled (s : Sheet) : List Error → Option Notice → Sheet → Type 0 where
  all_saved :
      Settled s []
        (some (success (key "attendanceSavedToast")))
        (record s { draft = []; saving = false })
  kept :
      (e : Error) (later : List Error)
      → Settled s
          (e ∷ later)
          (some (error (message_or "saveFailedToast" e)))
          (record s { saving = false })

editable_status :
    (student : String) (s : Sheet)
    → s.is_editable ≡ true
    → (status : AttendanceStatus) × (status_for student s ≡ some status)
unfolding status_for
editable_status student s editable =
    rw editable (by_mark (get student s.draft) (find_record student s.session_records))
  where
    by_mark :
        (m : Option Mark) (found : Option AttendanceRecord)
        → (status : AttendanceStatus) × (status_from m found true ≡ some status)
    by_mark none none = (present, refl)
    by_mark none (some r) = (r.status, refl)
    by_mark (some mark) found = (mark.status, refl)

save_call-Sends :
    (student : String) (s : Sheet) → s.is_editable ≡ true → Sends s student (save_call s student)
unfolding save_call
save_call-Sends student s editable =
    let (status, shown) = editable_status student s editable in
    elim (Option-cases (find_record student s.session_records)) [
      | inl new ↦
          rw (new, save_call)
            (subst (λ o. Sends s student (create student (or_present o) (notes_for student s)))
              (sym shown) (created status new shown))
      | inr (r, old) ↦
          rw (old, save_call)
            (subst (λ o. Sends s student (update r.id (or_present o) (notes_for student s)))
              (sym shown) (updated r status old shown))
    ]

map-SendsAll :
    (members : List String) (s : Sheet)
    → s.is_editable ≡ true
    → SendsAll s members (map (save_call s) members)
map-SendsAll [] s editable = tt
map-SendsAll (m ∷ members) s editable =
    (save_call-Sends m s editable, map-SendsAll members s editable)

module _ {A : Type 0} (arrive : List SaveCall → List (Outcome A)) where
  abbrev pub SavesAll : List String → Sheet → Saving → Type 0
  SavesAll members s saving =
      SendsAll s members saving.calls
      × Settled s (failures (arrive saving.calls)) saving.notice saving.sheet

  settle_save-SavesAll :
      (members : List String) (s : Sheet) (calls : List SaveCall) (failed : List Error)
      → failed ≡ failures (arrive calls)
      → SendsAll s members calls
      → SavesAll members s (settle_save s calls failed)
  unfolding settle_save
  settle_save-SavesAll members s calls [] e sent = (
    sent,
    subst
        (λ f.
          Settled s f (some (success (key "attendanceSavedToast")))
            (record s { draft = []; saving = false }))
        e all_saved,
  )
  settle_save-SavesAll members s calls (first ∷ later) e sent = (
    sent,
    subst
        (λ f.
          Settled s f (some (error (message_or "saveFailedToast" first)))
            (record s { saving = false }))
        e (kept first later),
  )

  handle_save_open :
      (members : List String) (s : Sheet)
      → s.is_editable ≡ true
      → handle_save arrive true members s
        ≡ settle_save s (map (save_call s) members) (failures (arrive (map (save_call s) members)))
  unfolding handle_save
  handle_save_open members s editable = simp editable

  -- A save on a sheet that can be edited, with a center and a group, makes one call for each active
  -- student, with the status and the note that the sheet shows, as a change where the session has a
  -- record of the student; the draft is thrown away if all calls succeeded, and is kept otherwise,
  -- with the toast of the failure that came in first.
  pub handle_save-SavesAll :
      (members : List String) (s : Sheet)
      → s.is_editable ≡ true
      → SavesAll members s (handle_save arrive true members s)
  handle_save-SavesAll members s editable =
      let calls = map (save_call s) members in
      subst (SavesAll members s) (sym (handle_save_open members s editable)) (
        settle_save-SavesAll members s calls (failures (arrive calls)) refl
          (map-SendsAll members s editable))

  -- A save of a day that is past, or with no center or group, makes no call, shows no toast and
  -- changes nothing.
  pub handle_save-guarded :
      (members : List String) (s : Sheet) (has_session : Bool)
      → (has_session && s.is_editable) ≡ false
      → handle_save arrive has_session members s ≡ record { calls = []; notice = none; sheet = s }
  unfolding handle_save
  handle_save-guarded members s has_session closed = simp closed
