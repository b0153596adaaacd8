-- ===== src/Dates/Week.antt =====
-- The weeks of the schedule pages (frontend/app/(admin)/schedule/page.tsx and those of the teacher
-- and the student) and of the student's attendance trend.
pub mod Columns
use mentorio.Prelude.{ℕ, ◌+◌, ◌-◌, ◌%◌, ◌==◌, if◌then◌else◌, Option, none, some, List, table}
use mentorio.Prelude.Int.{ℤ, pos, negsuc, scale, ◌+ℤ◌, ◌-ℤ◌}
use mentorio.Prelude.Text.{Text}
use mentorio.Dates.{Date, get_date, get_day, set_date}
use mentorio.Dates.Iso.{parse_local_date, to_local_iso_date}

-- -6 on a Sunday.
unfoldable pub get_monday_of : Date → Date
get_monday_of t =
    let day = get_day t in
    let diff = if day == 0 then negsuc 5 else pos 1 -ℤ pos day in
    set_date t (pos (get_date t) +ℤ diff)

unfoldable pub build_week : Date → List Text
build_week monday = table (λ i. to_local_iso_date (set_date monday (pos (get_date monday + i)))) 0 7

-- The Monday that a schedule page shows, `week_offset` weeks after today's.
unfoldable pub current_monday : Date → ℤ → Date
current_monday today week_offset =
    let base = get_monday_of today in set_date base (pos (get_date base) +ℤ scale 7 week_offset)

-- `weekStartOf`, on the text of a date alone; `none` where the code makes texts of NaN.
unfoldable pub week_start_of : Text → Option Text
week_start_of date_str = elim (parse_local_date date_str) [
  | none ↦ none
  | some d ↦
      let monday_offset = (get_day d + 6) % 7 in
      some (to_local_iso_date (set_date d (pos (get_date d) -ℤ pos monday_offset)))
]
