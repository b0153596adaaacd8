-- ===== src/Screens/Attendance.antt =====
-- The attendance sheet of a teacher, frontend/app/teacher/attendance/page.tsx.
pub mod Edited
pub mod Saved
pub mod Counted
use mentorio.Prelude.{
  ℕ, ◌+◌, ◌*◌, ◌/◌, Bool, true, false, ◌&&◌, Option, none, some, List, [], ◌∷◌, String,
  if◌then◌else◌, str_eq, ltb, leb, length, map,
}
use mentorio.Prelude.Text.{Text}
use mentorio.Prelude.Dict.{Dict, get, put}
use mentorio.Client.{Error, Outcome}
use mentorio.Screens.{key, Notice, success, error, message_or, failures}

pub data AttendanceStatus : Type 0 where
  present absent late excused early_leave sick : AttendanceStatus

pub record AttendanceRecord : Type 0 where
  pub id : String
  pub student_profile : String
  pub status : AttendanceStatus
  pub notes : Option Text

pub record Mark : Type 0 where
  pub status : AttendanceStatus
  pub notes : Text

-- The state of the page with the records of the session and the clock's date: `is_editable` is
-- `date === today`.
pub record Sheet : Type 0 where
  pub session_records : List AttendanceRecord
  pub is_editable : Bool
  pub draft : Dict Mark
  pub saving : Bool

-- `records.find((r) => r.student_profile === id)`
unfoldable pub find_record : String → List AttendanceRecord → Option AttendanceRecord
find_record student [] = none
find_record student (r ∷ rs) =
    if str_eq r.student_profile student then some r else find_record student rs

abbrev pub status_from : Option Mark → Option AttendanceRecord → Bool → Option AttendanceStatus
status_from (some mark) found is_editable = some mark.status
status_from none (some r) is_editable = some r.status
status_from none none is_editable = if is_editable then some present else none

unfoldable pub status_for : String → Sheet → Option AttendanceStatus
status_for student s =
    status_from (get student s.draft) (find_record student s.session_records) s.is_editable

-- `r?.notes ?? ''`
abbrev pub notes_of : Option AttendanceRecord → Text
notes_of none = []
notes_of (some r) = elim r.notes [ none ↦ [] | some notes ↦ notes ]

abbrev pub notes_from : Option Mark → Option AttendanceRecord → Text
notes_from (some mark) found = mark.notes
notes_from none found = notes_of found

unfoldable pub notes_for : String → Sheet → Text
notes_for student s = notes_from (get student s.draft) (find_record student s.session_records)

-- `status ?? 'present'`
abbrev pub or_present : Option AttendanceStatus → AttendanceStatus
or_present none = present
or_present (some status) = status

-- `d[id]?.notes ?? fallback` and `d[id]?.status ?? fallback`.
abbrev pub notes_or : Text → Option Mark → Text
notes_or fallback none = fallback
notes_or fallback (some mark) = mark.notes

abbrev pub status_or : AttendanceStatus → Option Mark → AttendanceStatus
status_or fallback none = fallback
status_or fallback (some mark) = mark.status

unfoldable pub set_status : String → AttendanceStatus → Sheet → Sheet
set_status student status s = record s {
  draft =
      put student
        (record { status = status; notes = notes_or (notes_for student s) (get student s.draft) })
        s.draft;
}

unfoldable pub set_notes : String → Text → Sheet → Sheet
set_notes student notes s = record s {
  draft =
      put student
        (record {
          status = status_or (or_present (status_for student s)) (get student s.draft);
          notes = notes;
        })
        s.draft;
}

-- `updateMutation.mutateAsync` and `createMutation.mutateAsync`, with what differs between the
-- students; the center, the group and the date of the session are those of the page.
pub data SaveCall : Type 0 where
  update : String → AttendanceStatus → Text → SaveCall
  create : String → AttendanceStatus → Text → SaveCall

unfoldable pub save_call : Sheet → String → SaveCall
save_call s student = elim (find_record student s.session_records) [
  | some r ↦ update r.id (or_present (status_for student s)) (notes_for student s)
  | none ↦ create student (or_present (status_for student s)) (notes_for student s)
]

pub record Saving : Type 0 where
  pub calls : List SaveCall
  pub notice : Option Notice
  pub sheet : Sheet

-- The end of the handler, from the failures in the order in which they come in: `Promise.all`
-- rejects with the first.
unfoldable pub settle_save : Sheet → List SaveCall → List Error → Saving
settle_save s calls [] = record {
  calls = calls;
  notice = some (success (key "attendanceSavedToast"));
  sheet = record s { draft = []; saving = false };
}
settle_save s calls (e ∷ later) = record {
  calls = calls;
  notice = some (error (message_or "saveFailedToast" e));
  sheet = record s { saving = false };
}

-- `arrive` gives what the calls come to, in the order in which they come in; `has_session` says that
-- the center and the group are there.
unfoldable pub handle_save :
    {A : Type 0} → (List SaveCall → List (Outcome A)) → Bool → List String → Sheet → Saving
handle_save arrive has_session active_members s =
    let calls = map (save_call s) active_members in
    if has_session && s.is_editable
    then settle_save s calls (failures (arrive calls))
    else record { calls = []; notice = none; sheet = s }

-- `counts`; a status outside the four is counted under a key that no card shows.
pub record Counts : Type 0 where
  pub present : ℕ
  pub absent : ℕ
  pub late : ℕ
  pub excused : ℕ

abbrev pub no_counts : Counts
no_counts = record { present = 0; absent = 0; late = 0; excused = 0 }

unfoldable pub count_status : Option AttendanceStatus → Counts → Counts
count_status (some present) c = record c { present = c.present + 1 }
count_status (some absent) c = record c { absent = c.absent + 1 }
count_status (some late) c = record c { late = c.late + 1 }
count_status (some excused) c = record c { excused = c.excused + 1 }
count_status _ c = c

unfoldable pub session_summary : Sheet → List String → Counts → Counts
session_summary s [] counts = counts
session_summary s (m ∷ members) counts =
    session_summary s members (count_status (status_for m s) counts)

pub record StudentRate : Type 0 where
  pub id : String
  pub rate : ℕ

unfoldable pub records_of : String → List AttendanceRecord → List AttendanceRecord
records_of student [] = []
records_of student (r ∷ rs) =
    let rest = records_of student rs in if str_eq r.student_profile student then r ∷ rest else rest

abbrev pub is_present : AttendanceStatus → Bool
is_present present = true
is_present _ = false

unfoldable pub present_count : List AttendanceRecord → ℕ
present_count [] = 0
present_count (r ∷ rs) =
    let rest = present_count rs in if is_present r.status then rest + 1 else rest

-- `Math.round((present / records) * 100)`, halves upwards; 0 if there is no record.
unfoldable pub rate_of : List AttendanceRecord → ℕ
rate_of [] = 0
rate_of (r ∷ rs) = let n = length (r ∷ rs) in (present_count (r ∷ rs) * 200 + n) / (n * 2)

-- `.sort((a, b) => a.rate - b.rate)`, which is stable.
unfoldable pub insert_rate : StudentRate → List StudentRate → List StudentRate
insert_rate a [] = a ∷ []
insert_rate a (b ∷ bs) = if leb a.rate b.rate then a ∷ b ∷ bs else b ∷ insert_rate a bs

unfoldable pub sort_rates : List StudentRate → List StudentRate
sort_rates [] = []
sort_rates (a ∷ bs) = insert_rate a (sort_rates bs)

abbrev pub student_rate : List AttendanceRecord → String → StudentRate
student_rate group_records student = record {
  id = student;
  rate = rate_of (records_of student group_records);
}

unfoldable pub student_rates : List AttendanceRecord → List String → List StudentRate
student_rates group_records members = sort_rates (map (student_rate group_records) members)
