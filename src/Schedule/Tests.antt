-- ===== src/Schedule/Tests.antt =====
-- Runs of the layout, and the theorems about it at them.
use mentorio.Schedule.Separate.{layout_day_lessons-Apart}
use mentorio.Schedule.Lanes.{Apart}
use mentorio.Schedule.Cover.{layout_day_lessons-HasKey}
use mentorio.Schedule.Times.{Clock, clock, DrawnFor, layout_day_lessons-DrawnFor}
use mentorio.Prelude.{◌≢◌, inl, inr, Any, arith, eq_iff, ◌≡◌, refl, some, List, [], ◌∷◌, String}
use mentorio.Prelude.Text.{codes}
use mentorio.Prelude.Int.{pos}
use mentorio.Prelude.Dict.{Dict, get, HasKey, Entries}
use mentorio.Schedule.{
  LessonTiming, LessonBlockStyle, layout_day_lessons, layout_blocks, blocks_of, block_of, block_at,
  to_minutes,
}

abbrev lesson : String → String → String → LessonTiming
lesson id from to = record { id = id; start_time = codes from; end_time = codes to }

abbrev noon : List LessonTiming
noon =
    lesson "a" "12:00" "13:00" ∷ lesson "c" "14:00:00" "14:10:00" ∷ lesson "b" "12:30" "13:30" ∷ []

abbrev noon_styles : Dict LessonBlockStyle
noon_styles =
    ("a", record { top = pos 300; height = pos 60; lane = 0; lanes = 2 })
    ∷ ("b", record { top = pos 330; height = pos 60; lane = 1; lanes = 2 })
    ∷ ("c", record { top = pos 420; height = pos 40; lane = 0; lanes = 1 })
    ∷ []

layout_noon : layout_day_lessons noon 7 ≡ some noon_styles
unfolding layout_day_lessons layout_blocks blocks_of block_of block_at to_minutes
layout_noon = refl

a-ne-b : ◌≢◌ {A = String} "a" "b"
a-ne-b = ground (arith, eq_iff "a" "b")

layout_day_lessons-Apart_example :
    Apart
      (record { top = pos 300; height = pos 60; lane = 0; lanes = 2 })
      (record { top = pos 330; height = pos 60; lane = 1; lanes = 2 })
unfolding get
layout_day_lessons-Apart_example =
    layout_day_lessons-Apart noon 7 noon_styles "a" "b" _ _ layout_noon a-ne-b refl refl

layout_day_lessons-HasKey_example : HasKey "b" noon_styles
layout_day_lessons-HasKey_example =
    layout_day_lessons-HasKey noon 7 noon_styles "b" layout_noon (inr (inr (inl refl)))

start-Clock : Clock (codes "12:30") 750
start-Clock = clock b'1' b'2' b'3' b'0' [] (refl, refl, refl, refl) (inl refl)

end-Clock : Clock (codes "13:00:00") 780
end-Clock =
    clock b'1' b'3' b'0' b'0' (codes ":00") (refl, refl, refl, refl) (inr (codes "00", refl))

layout_day_lessons-DrawnFor_example :
    (m : Dict LessonBlockStyle) × (layout_day_lessons (lesson "a" "12:30" "13:00:00" ∷ []) 7
      ≡ some m)
    × Entries (λ k s. Any (λ l. (l.id ≡ k) × DrawnFor 7 l s) (lesson "a" "12:30" "13:00:00" ∷ [])) m
layout_day_lessons-DrawnFor_example =
    layout_day_lessons-DrawnFor (lesson "a" "12:30" "13:00:00" ∷ []) 7
      (((750, start-Clock), (780, end-Clock)), tt)
