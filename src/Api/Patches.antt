-- ===== src/Api/Patches.antt =====
-- What a PATCH of frontend/lib/api does to a stored object: the API sets the keys of the body.
use mentorio.Prelude.{◌≡◌, refl, String, Option}
use mentorio.Json.{Json, Fields, find_field, str, num}
use mentorio.Api.{
  text_or_null, or_else, or_else-none, given, arr_texts, defined, find_field-defined,
  find_field-nothing,
}
use mentorio.Api.Exams.{ExamPatch, update_exam_body}
use mentorio.Api.Lessons.{LessonPatch, update_lesson_body}
use mentorio.Api.Homework.{AssignmentPatch, update_assignment_body}

-- The object after the body has been set on it.
abbrev pub merged : (String → Option Json) → Fields → String → Option Json
merged old body key = or_else (find_field key body) (old key)

-- A change of an exam sets the fields that are given, and keeps the others and the organization;
-- an empty room is cleared to null.
update_exam_body-merged :
    (p : ExamPatch) (old : String → Option Json)
    → let new = merged old (defined (update_exam_body p)) in
      (new "group" ≡ or_else (given str p.group) (old "group"))
      × (new "title" ≡ or_else (given str p.title) (old "title"))
      × (new "date" ≡ or_else (given str p.date) (old "date"))
      × (new "start_time" ≡ or_else (given str p.start_time) (old "start_time"))
      × (new "duration_minutes" ≡ or_else (given num p.duration_minutes) (old "duration_minutes"))
      × (new "room" ≡ or_else (given text_or_null p.room) (old "room"))
      × (new "max_score" ≡ or_else (given num p.max_score) (old "max_score"))
      × (new "question_count" ≡ or_else (given num p.question_count) (old "question_count"))
      × (new "status" ≡ or_else (given str p.status) (old "status"))
      × (new "organization" ≡ old "organization")
unfolding update_exam_body
update_exam_body-merged p old =
    simp (find_field-defined, find_field-nothing, or_else-none)
      (refl, refl, refl, refl, refl, refl, refl, refl, refl, refl)

-- A change of a lesson sets the fields that are given, and keeps the others and the organization;
-- an empty room, topic or note is cleared to null.
update_lesson_body-merged :
    (p : LessonPatch) (old : String → Option Json)
    → let new = merged old (defined (update_lesson_body p)) in
      (new "group" ≡ or_else (given str p.group) (old "group"))
      × (new "date" ≡ or_else (given str p.date) (old "date"))
      × (new "start_time" ≡ or_else (given str p.start_time) (old "start_time"))
      × (new "end_time" ≡ or_else (given str p.end_time) (old "end_time"))
      × (new "room" ≡ or_else (given text_or_null p.room) (old "room"))
      × (new "topic" ≡ or_else (given text_or_null p.topic) (old "topic"))
      × (new "status" ≡ or_else (given str p.status) (old "status"))
      × (new "notes" ≡ or_else (given text_or_null p.notes) (old "notes"))
      × (new "organization" ≡ old "organization")
unfolding update_lesson_body
update_lesson_body-merged p old =
    simp (find_field-defined, find_field-nothing, or_else-none)
      (refl, refl, refl, refl, refl, refl, refl, refl, refl)

-- A change of an assignment sets the fields that are given, the attachments as a whole, and keeps the
-- others; the group of the input is not among them, so an assignment keeps its group.
update_assignment_body-merged :
    (p : AssignmentPatch) (old : String → Option Json)
    → let new = merged old (defined (update_assignment_body p)) in
      (new "title" ≡ or_else (given str p.title) (old "title"))
      × (new "description" ≡ or_else (given text_or_null p.description) (old "description"))
      × (new "due_date" ≡ or_else (given str p.due_date) (old "due_date"))
      × (new "max_score" ≡ or_else (given num p.max_score) (old "max_score"))
      × (new "status" ≡ or_else (given str p.status) (old "status"))
      × (new "attachment_ids" ≡ or_else (given arr_texts p.attachment_ids) (old "attachment_ids"))
      × (new "group" ≡ old "group")
      × (new "organization" ≡ old "organization")
unfolding update_assignment_body
update_assignment_body-merged p old =
    simp (find_field-defined, find_field-nothing, or_else-none)
      (refl, refl, refl, refl, refl, refl, refl, refl)
