-- ===== src/Screens/Attendance/Edited.antt =====
-- What the sheet shows after an edit.
use mentorio.Prelude.{true, Option, none, some, String, ◌≡◌, ◌≢◌, refl, ap, ◌∙◌}
use mentorio.Prelude.Text.{Text}
use mentorio.Prelude.Dict.{get, put, get-put_self, get-put_ne}
use mentorio.Screens.Attendance.{
  AttendanceStatus, AttendanceRecord, status_from, notes_from, notes_or, status_or, Mark, Sheet,
  find_record, status_for, notes_for, set_status, set_notes, or_present,
}

-- The same is shown for a student.
abbrev pub SameFor : String → Sheet → Sheet → Type 0
SameFor student s t =
    (status_for student s ≡ status_for student t) × (notes_for student s ≡ notes_for student t)

-- Putting a mark changes one student.
module _ (student : String) (mark : Mark) (s : Sheet) where
  abbrev marked : Sheet
  marked = record s { draft = put student mark s.draft }

  marked_self :
      (status_for student marked ≡ some mark.status) × (notes_for student marked ≡ mark.notes)
  unfolding status_for notes_for
  marked_self =
      let found = find_record student s.session_records in
      let here = get-put_self student mark s.draft in
      (ap (λ m. status_from m found s.is_editable) here, ap (λ m. notes_from m found) here)

  marked_ne : (other : String) → student ≢ other → SameFor other marked s
  unfolding status_for notes_for
  marked_ne other ne =
      let found = find_record other s.session_records in
      let there = get-put_ne student other mark s.draft ne in
      (ap (λ m. status_from m found s.is_editable) there, ap (λ m. notes_from m found) there)

-- What an edit falls back on is what is shown.
shown_notes :
    (student : String) (s : Sheet)
    → notes_or (notes_for student s) (get student s.draft) ≡ notes_for student s
unfolding notes_for
shown_notes student s = by_mark (get student s.draft)
  where
    by_mark :
        (m : Option Mark)
        → notes_or (notes_from m (find_record student s.session_records)) m
          ≡ notes_from m (find_record student s.session_records)
    by_mark none = refl
    by_mark (some mark) = refl

shown_status :
    (student : String) (s : Sheet)
    → s.is_editable ≡ true
    → some (status_or (or_present (status_for student s)) (get student s.draft))
      ≡ status_for student s
unfolding status_for
shown_status student s editable =
    rw editable (by_mark (get student s.draft) (find_record student s.session_records))
  where
    by_mark :
        (m : Option Mark) (found : Option AttendanceRecord)
        → some (status_or (or_present (status_from m found true)) m) ≡ status_from m found true
    by_mark none none = refl
    by_mark none (some r) = refl
    by_mark (some mark) found = refl

-- Setting a status shows it, keeps the note that is shown, and changes nothing of another student.
pub set_status-notes_for :
    (student other : String) (status : AttendanceStatus) (s : Sheet)
    → student ≢ other
    → (status_for student (set_status student status s) ≡ some status)
      × (notes_for student (set_status student status s) ≡ notes_for student s)
      × SameFor other (set_status student status s) s
unfolding set_status
set_status-notes_for student other status s ne =
    let mark : Mark = record {
      status = status;
      notes = notes_or (notes_for student s) (get student s.draft);
    } in
    let (status_shown, notes_shown) = marked_self student mark s in
    (status_shown, notes_shown ∙ shown_notes student s, marked_ne student mark s other ne)

-- Typing a note on a sheet that can be edited shows it, keeps the status that is shown, the default
-- included, and changes nothing of another student.
pub set_notes-status_for :
    (student other : String) (notes : Text) (s : Sheet)
    → s.is_editable ≡ true
    → student ≢ other
    → (notes_for student (set_notes student notes s) ≡ notes)
      × (status_for student (set_notes student notes s) ≡ status_for student s)
      × SameFor other (set_notes student notes s) s
unfolding set_notes
set_notes-status_for student other notes s editable ne =
    let mark : Mark = record {
      status = status_or (or_present (status_for student s)) (get student s.draft);
      notes = notes;
    } in
    let (status_shown, notes_shown) = marked_self student mark s in
    (notes_shown, status_shown ∙ shown_status student s editable, marked_ne student mark s other ne)
