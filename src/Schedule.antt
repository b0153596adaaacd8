-- ===== src/Schedule.antt =====
-- frontend/lib/schedule-layout.ts: the week view's lesson blocks, one day column at a time.
pub mod Order
pub mod Lanes
pub mod Separate
pub mod Cover
pub mod Times
mod Tests
use mentorio.Prelude.{
  ℕ, zero, suc, ◌+◌, ◌*◌, String, Bool, true, false, not, ◌&&◌, ◌||◌, Option, none, some, List, [],
  ◌∷◌, ◌++◌, if◌then◌else◌, length, map,
}
use mentorio.Prelude.Int.{ℤ, pos, ◌+ℤ◌, ◌-ℤ◌, leb_ℤ, max_ℤ}
use mentorio.Prelude.Text.{Text}
use mentorio.Prelude.Number.{number, split}
use mentorio.Prelude.Dict.{Dict, put}

abbrev pub min_block_px : ℤ
min_block_px = pos 40

pub record LessonTiming : Type 0 where
  pub id : String
  pub start_time : Text  -- "HH:MM" or "HH:MM:SS"
  pub end_time : Text

-- `top` is "…px", `height` is "…px"; `left` is `lane * 100 / lanes`% + 2px and `width` is
-- `100 / lanes`% - 4px: lane number `lane` of `lanes` equal ones.
pub record LessonBlockStyle : Type 0 where
  pub top : ℤ
  pub height : ℤ
  pub lane : ℕ
  pub lanes : ℕ

minutes_of : List Text → ℕ → Option ℤ
minutes_of (h ∷ m ∷ _) hour_start = elim (number h) [
  | none ↦ none
  | some hours ↦ elim (number m) [
    | none ↦ none
    | some mins ↦ some (pos (hours * 60 + mins) -ℤ pos (hour_start * 60))
  ]
]
minutes_of _ hour_start = none

-- `none` where the code's result is NaN.
unfoldable pub to_minutes : Text → ℕ → Option ℤ
unfolding minutes_of number split ◌-ℤ◌
to_minutes time hour_start = minutes_of (split b':' time) hour_start

pub record Block : Type 0 where
  pub id : String
  pub top : ℤ
  pub bottom : ℤ
  pub height : ℤ
  pub lane : ℕ

unfoldable pub block_at : String → ℤ → ℤ → Block
unfolding ◌+ℤ◌ ◌-ℤ◌
block_at id top end =
    let height = max_ℤ (end -ℤ top) min_block_px in
    record { id = id; top = top; bottom = top +ℤ height; height = height; lane = 0 }

-- The body of `lessons.map`.
unfoldable pub block_of : LessonTiming → ℕ → Option Block
block_of l hour_start = elim (to_minutes l.start_time hour_start) [
  | none ↦ none
  | some top ↦ elim (to_minutes l.end_time hour_start) [
    | none ↦ none
    | some end ↦ some (block_at l.id top end)
  ]
]

-- `none` if one of the times is no time.
unfoldable pub blocks_of : List LessonTiming → ℕ → Option (List Block)
blocks_of [] hour_start = some []
blocks_of (l ∷ ls) hour_start = elim (block_of l hour_start) [
  | none ↦ none
  | some b ↦ elim (blocks_of ls hour_start) [ none ↦ none | some bs ↦ some (b ∷ bs) ]
]

-- The comparator gives a negative number: `a.top - b.top || b.bottom - a.bottom`.
unfoldable pub before : Block → Block → Bool
before a b = not (leb_ℤ b.top a.top) || (leb_ℤ a.top b.top && not (leb_ℤ a.bottom b.bottom))

-- `sort` is stable: a block goes behind those that compare equal.
unfoldable pub insert : Block → List Block → List Block
unfolding before
insert b [] = b ∷ []
insert b (c ∷ cs) = if before b c then b ∷ c ∷ cs else c ∷ insert b cs

unfoldable pub sort_onto : List Block → List Block → List Block
unfolding insert
sort_onto sorted [] = sorted
sort_onto sorted (b ∷ bs) = sort_onto (insert b sorted) bs

-- The variables of the loop; `group_bottom` starts at minus infinity, `none`.
pub record Column : Type 0 where
  pub result : Dict LessonBlockStyle
  pub group : List Block
  pub lane_ends : List ℤ
  pub group_bottom : Option ℤ

abbrev pub style_of : ℕ → Block → LessonBlockStyle
style_of lanes b = record { top = b.top; height = b.height; lane = b.lane; lanes = lanes }

unfoldable pub emit : ℕ → List Block → Dict LessonBlockStyle → Dict LessonBlockStyle
emit lanes [] result = result
emit lanes (b ∷ bs) result = emit lanes bs (put b.id (style_of lanes b) result)

unfoldable pub flush : Column → Column
flush s = record s {
  result = emit (length s.lane_ends) s.group s.result;
  group = [];
  lane_ends = [];
}

-- `laneEnds.findIndex((end) => end <= top)`, or the length where that is -1.
unfoldable pub free_lane : List ℤ → ℤ → ℕ
free_lane [] top = 0
free_lane (e ∷ es) top = if leb_ℤ e top then 0 else suc (free_lane es top)

-- `laneEnds[lane] = bottom`, for a lane of the array or the next one.
unfoldable pub set_lane : List ℤ → ℕ → ℤ → List ℤ
set_lane [] lane bottom = bottom ∷ []
set_lane (e ∷ es) zero bottom = bottom ∷ es
set_lane (e ∷ es) (suc lane) bottom = e ∷ set_lane es lane bottom

-- `b.top >= groupBottom`
abbrev pub is_past : Option ℤ → ℤ → Bool
is_past none top = true
is_past (some bottom) top = leb_ℤ bottom top

-- `groupBottom` after `b` has joined the group.
abbrev pub joined_bottom : List Block → Option ℤ → ℤ → ℤ
joined_bottom [] bottom b = b
joined_bottom (_ ∷ _) none b = b
joined_bottom (_ ∷ _) (some bottom) b = max_ℤ bottom b

-- The rest of the loop's body, after the test that flushes.
unfoldable pub join : Column → Block → Column
unfolding free_lane set_lane
join s b =
    let lane = free_lane s.lane_ends b.top in
    record s {
      group = s.group ++ (record b { lane = lane }) ∷ [];
      lane_ends = set_lane s.lane_ends lane b.bottom;
      group_bottom = some (joined_bottom s.group s.group_bottom b.bottom);
    }

unfoldable pub place : Column → Block → Column
unfolding flush join
place s b = if is_past s.group_bottom b.top then join (flush s) b else join s b

unfoldable pub place_all : Column → List Block → Column
unfolding place
place_all s [] = s
place_all s (b ∷ bs) = place_all (place s b) bs

abbrev pub no_column : Column
no_column = record { result = []; group = []; lane_ends = []; group_bottom = none }

unfoldable pub layout_blocks : List Block → Dict LessonBlockStyle
unfolding sort_onto place_all flush emit put
layout_blocks blocks = (flush (place_all no_column (sort_onto [] blocks))).result

unfoldable pub layout_day_lessons : List LessonTiming → ℕ → Option (Dict LessonBlockStyle)
layout_day_lessons lessons hour_start = elim (blocks_of lessons hour_start) [
  | none ↦ none
  | some blocks ↦ some (layout_blocks blocks)
]
