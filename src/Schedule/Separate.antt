-- ===== src/Schedule/Separate.antt =====
-- What the column layout of frontend/lib/schedule-layout.ts guarantees to the week view.
use Prim.Native.Nat.{◌<◌}
use mathlib.Core.Option.{some-injective}
use mathlib.Core.Path.{subst}
use mentorio.Prelude.{
  ℕ, ◌≡◌, refl, ◌≢◌, inl, inr, String, some, List, [], ◌∷◌, arith, All, All-map, Option-cases,
}
use mentorio.Prelude.Int.{ℤ, ◌≤ℤ◌, max_ℤ, pos}
use mentorio.Prelude.Dict.{Dict, get, get-Entries, get-ValuePairs}
use mentorio.Schedule.{
  Block, LessonBlockStyle, LessonTiming, Column, flush, place_all, no_column, block_of, blocks_of,
  block_at, to_minutes, layout_blocks, layout_day_lessons, sort_onto,
}
use mentorio.Schedule.Order.{IsDrawn, IsSorted, block_at-IsDrawn, sort_onto-All, sort_onto-IsSorted}
use mentorio.Schedule.Lanes.{Apart, Apart-symm, Inv, InGroup, Within, flush-Inv, place_all-Inv}

-- A block comes from times that could be read.
pub block_of-eq :
    (l : LessonTiming) (h : ℕ) (b : Block)
    → block_of l h ≡ some b
    → (top : ℤ) × (end : ℤ) × (to_minutes l.start_time h ≡ some top)
      × (to_minutes l.end_time h ≡ some end)
      × (block_at l.id top end ≡ b)
unfolding block_of
block_of-eq l h b e = elim (Option-cases (to_minutes l.start_time h)) [
  | inl bad ↦ cc (rw (bad, block_of) at e)
  | inr (top, at_top) ↦ elim (Option-cases (to_minutes l.end_time h)) [
    | inl bad ↦ cc (rw (at_top, bad, block_of) at e)
    | inr (end, at_end) ↦
        (top, end, at_top, at_end, some-injective _ _ (rw (at_top, at_end, block_of) at e))
  ]
]

block_of-IsDrawn : (l : LessonTiming) (h : ℕ) (b : Block) → block_of l h ≡ some b → IsDrawn b
block_of-IsDrawn l h b e =
    let (top, end, _, _, is) = block_of-eq l h b e in
    subst IsDrawn is (block_at-IsDrawn l.id top end)

pub blocks_of-cons :
    (l : LessonTiming) (ls : List LessonTiming) (h : ℕ) (bs : List Block)
    → blocks_of (l ∷ ls) h ≡ some bs
    → (b : Block) × (rest : List Block) × (block_of l h ≡ some b)
      × (blocks_of ls h ≡ some rest)
      × (b ∷ rest ≡ bs)
unfolding blocks_of
blocks_of-cons l ls h bs e = elim (Option-cases (block_of l h)) [
  | inl bad ↦ cc (rw (bad, blocks_of) at e)
  | inr (b, is) ↦ elim (Option-cases (blocks_of ls h)) [
    | inl bad ↦ cc (rw (is, bad, blocks_of) at e)
    | inr (rest, are) ↦ (b, rest, is, are, some-injective _ _ (rw (is, are, blocks_of) at e))
  ]
]

blocks_of-IsDrawn :
    (ls : List LessonTiming) (h : ℕ) (bs : List Block) → blocks_of ls h ≡ some bs → All IsDrawn bs
unfolding blocks_of
blocks_of-IsDrawn [] h bs e = subst (All IsDrawn) (some-injective _ _ e) tt
blocks_of-IsDrawn (l ∷ ls) h bs e =
    let (b, rest, is, are, eq) = blocks_of-cons l ls h bs e in
    subst (All IsDrawn) eq (block_of-IsDrawn l h b is, blocks_of-IsDrawn ls h rest are)

pub layout_day_lessons-eq :
    (ls : List LessonTiming) (h : ℕ) (m : Dict LessonBlockStyle)
    → layout_day_lessons ls h ≡ some m
    → (bs : List Block) × (blocks_of ls h ≡ some bs) × (layout_blocks bs ≡ m)
unfolding layout_day_lessons
layout_day_lessons-eq ls h m e = elim (Option-cases (blocks_of ls h)) [
  | inl bad ↦ cc (rw (bad, layout_day_lessons) at e)
  | inr (bs, are) ↦ (bs, are, some-injective _ _ (rw (are, layout_day_lessons) at e))
]

over-All : (s : Column) (t : ℤ) → Inv s t → (x : ℤ) × (t ≤ℤ x) × All (λ q. q.bottom ≤ℤ x) s.group
over-All s t inv = elim (Option-cases s.group_bottom) [
  | inl none_yet ↦ (
    t,
    omega arith,
    All-map (InGroup s.lane_ends s.group_bottom t) _
        (λ q h. absurd (subst (λ g. Within g q.bottom) none_yet h.within)) s.group inv.in_group,
  )
  | inr (g, found) ↦ (
    max_ℤ t g,
    ground arith,
    All-map (InGroup s.lane_ends s.group_bottom t) _
        (λ q h.
          let w : q.bottom ≤ℤ g = subst (λ o. Within o q.bottom) found h.within in ground arith)
        s.group inv.in_group,
  )
]

first_top : List Block → ℤ
first_top [] = pos 0
first_top (b ∷ bs) = b.top

first_top-le : (bs : List Block) → IsSorted bs → All (λ b. first_top bs ≤ℤ b.top) bs
unfolding first_top
first_top-le [] h = tt
first_top-le (b ∷ bs) (f, h) = (omega arith, f)

layout_blocks-Inv :
    (bs : List Block)
    → All IsDrawn bs
    → (s : Column) × (x : ℤ) × Inv s x × (s.result ≡ layout_blocks bs)
unfolding layout_blocks
layout_blocks-Inv bs drawn =
    let sorted = sort_onto-IsSorted [] bs tt in
    let inv =
      place_all-Inv no_column (first_top (sort_onto [] bs)) (sort_onto [] bs)
        (sort_onto-All IsDrawn [] bs tt drawn) sorted (first_top-le (sort_onto [] bs) sorted)
        (record { apart = tt; past = tt; bounded = tt; ahead = tt; in_group = tt; stacked = tt }) in
    let (x, le, over) = over-All (place_all no_column (sort_onto [] bs)) _ inv in
    (flush (place_all no_column (sort_onto [] bs)), x, flush-Inv _ _ x le over inv, refl)

-- Two lessons with different ids are never drawn over each other: one block ends above the other's
-- top, or the two stand in different lanes of a column that is divided equally for both.
pub layout_day_lessons-Apart :
    (ls : List LessonTiming) (h : ℕ) (m : Dict LessonBlockStyle) (a b : String)
    (s t : LessonBlockStyle)
    → layout_day_lessons ls h ≡ some m
    → a ≢ b
    → get a m ≡ some s
    → get b m ≡ some t
    → Apart s t
layout_day_lessons-Apart ls h m a b s t laid ne at_a at_b =
    let (bs, are, eq) = layout_day_lessons-eq ls h m laid in
    let (c, x, inv, result) = layout_blocks-Inv bs (blocks_of-IsDrawn ls h bs are) in
    get-ValuePairs Apart Apart-symm a b m s t (rw (← eq, ← result) inv.apart) ne at_a at_b

-- The lane of every lesson is one of those that its column is divided into.
layout_day_lessons-lane :
    (ls : List LessonTiming) (h : ℕ) (m : Dict LessonBlockStyle) (a : String) (s : LessonBlockStyle)
    → layout_day_lessons ls h ≡ some m
    → get a m ≡ some s
    → s.lane < s.lanes
layout_day_lessons-lane ls h m a s laid at_a =
    let (bs, are, eq) = layout_day_lessons-eq ls h m laid in
    let (c, x, inv, result) = layout_blocks-Inv bs (blocks_of-IsDrawn ls h bs are) in
    get-Entries (λ _ e. e.lane < e.lanes) a m s (rw (← eq, ← result) inv.bounded) at_a
