-- ===== src/Schedule/Times.antt =====
-- Where frontend/lib/schedule-layout.ts draws the lessons of a day, by the digits of their times.
use mentorio.Prelude.{
  ℕ, ◌≡◌, refl, sym, ap, ◌∙◌, ◌⊎◌, inl, inr, ◌+◌, ◌*◌, ◌-◌, some, List, [], ◌∷◌, All, Any, true,
  arith,
}
use mathlib.Core.Option.{some-injective}
use mentorio.Prelude.Text.{Text, is_digit}
use mentorio.Prelude.Int.{pos, ◌-ℤ◌, max_ℤ}
use mentorio.Prelude.Dict.{Dict, Entries, Entries-map}
use mentorio.Prelude.Number.{number, number_from, split}
use Prim.Native.String.{String}
use mentorio.Schedule.{
  Block, LessonTiming, LessonBlockStyle, minutes_of, to_minutes, block_at, block_of, blocks_of,
  layout_blocks, layout_day_lessons,
}
use mentorio.Schedule.Cover.{PlacedBy, Source, layout_day_lessons-Entries}

-- "HH:MM" and "HH:MM:SS", with the minutes since midnight.
pub data Clock : Text → ℕ → Type 0 where
  clock :
      (a b c d : ℕ) (seconds : Text)
      → (is_digit a ≡ true) × (is_digit b ≡ true) × (is_digit c ≡ true) × (is_digit d ≡ true)
      → (seconds ≡ []) ⊎ ((s : Text) × (seconds ≡ b':' ∷ s))
      → Clock
          (a ∷ b ∷ b':' ∷ c ∷ d ∷ seconds)
          (((a - b'0') * 10 + (b - b'0')) * 60 + ((c - b'0') * 10 + (d - b'0')))

abbrev pub IsTimed : LessonTiming → Type 0
IsTimed l = ((n : ℕ) × Clock l.start_time n) × ((n : ℕ) × Clock l.end_time n)

-- The place of a lesson in a column that begins at hour `h`, with a pixel to a minute: its top is its
-- start, and its height is its length, or 40 if that is less.
abbrev pub DrawnFor : ℕ → LessonTiming → LessonBlockStyle → Type 0
DrawnFor h l s =
    (start : ℕ) × (end : ℕ) × Clock l.start_time start
    × Clock l.end_time end
    × (s.top ≡ pos start -ℤ pos (h * 60))
    × (s.height ≡ max_ℤ ((pos end -ℤ pos (h * 60)) -ℤ s.top) (pos 40))

number-pair :
    (a b : ℕ)
    → is_digit a ≡ true
    → is_digit b ≡ true
    → number (a ∷ b ∷ []) ≡ some ((a - b'0') * 10 + (b - b'0'))
unfolding number number_from
number-pair a b p q = rw (p, q) (ap some (omega arith))

split-pair :
    (a b : ℕ) (rest : Text)
    → is_digit a ≡ true
    → is_digit b ≡ true
    → (rest ≡ []) ⊎ ((s : Text) × (rest ≡ b':' ∷ s))
    → (more : List Text) × (split b':' (a ∷ b ∷ rest) ≡ (a ∷ b ∷ []) ∷ more)
unfolding split
split-pair a b rest p q (inl e) = ([], rw e (ground arith))
split-pair a b rest p q (inr (s, e)) = (split b':' s, rw e (ground arith))

split-clock :
    (a b : ℕ) (rest : Text)
    → is_digit a ≡ true
    → is_digit b ≡ true
    → split b':' (a ∷ b ∷ b':' ∷ rest) ≡ (a ∷ b ∷ []) ∷ split b':' rest
unfolding split
split-clock a b rest p q = ground arith

to_minutes-Clock : (t : Text) (n h : ℕ) → Clock t n → to_minutes t h ≡ some (pos n -ℤ pos (h * 60))
unfolding to_minutes minutes_of
to_minutes-Clock _ _ h (clock a b c d seconds (p, q, r, s) ends) =
    let (more, parts) = split-pair c d seconds r s ends in
    let hours = number-pair a b p q in
    let mins = number-pair c d r s in
    rw (split-clock a b (c ∷ d ∷ seconds) p q, parts, minutes_of, hours, mins) refl

block_of-total : (l : LessonTiming) (h : ℕ) → IsTimed l → (b : Block) × (block_of l h ≡ some b)
unfolding block_of
block_of-total l h ((start, p), (end, q)) = (
  block_at l.id (pos start -ℤ pos (h * 60)) (pos end -ℤ pos (h * 60)),
  rw (to_minutes-Clock l.start_time start h p, to_minutes-Clock l.end_time end h q, block_of) refl,
)

blocks_of-total :
    (ls : List LessonTiming) (h : ℕ)
    → All IsTimed ls
    → (bs : List Block) × (blocks_of ls h ≡ some bs)
unfolding blocks_of
blocks_of-total [] h t = ([], refl)
blocks_of-total (l ∷ ls) h (t, ts) =
    let (b, is) = block_of-total l h t in
    let (bs, are) = blocks_of-total ls h ts in (b ∷ bs, rw (is, are, blocks_of))

PlacedBy-DrawnFor :
    (h : ℕ) (l : LessonTiming) (s : LessonBlockStyle) → IsTimed l → PlacedBy h l s → DrawnFor h l s
PlacedBy-DrawnFor h l s ((start, starts), (end, ends)) (e, at_top, at_end, height) =
    let top : pos start -ℤ pos (h * 60) ≡ s.top =
      some-injective _ _ (sym (to_minutes-Clock l.start_time start h starts) ∙ at_top) in
    let bottom : e ≡ pos end -ℤ pos (h * 60) =
      some-injective _ _ (sym at_end ∙ to_minutes-Clock l.end_time end h ends) in
    (start, end, starts, ends, sym top, height ∙ ap (λ z. max_ℤ (z -ℤ s.top) (pos 40)) bottom)

Any-DrawnFor :
    (h : ℕ) (k : String) (s : LessonBlockStyle) (ls : List LessonTiming)
    → All IsTimed ls
    → Any (λ (l : LessonTiming). (l.id ≡ k) × PlacedBy h l s) ls
    → Any (λ (l : LessonTiming). (l.id ≡ k) × DrawnFor h l s) ls
Any-DrawnFor h k s [] t m = m
Any-DrawnFor h k s (l ∷ ls) (t, ts) (inl (e, placed)) = inl (e, PlacedBy-DrawnFor h l s t placed)
Any-DrawnFor h k s (l ∷ ls) (t, ts) (inr m) = inr (Any-DrawnFor h k s ls ts m)

-- A day whose lessons all have a start and an end of the form "HH:MM" or "HH:MM:SS" is laid out. Every
-- entry of the result is drawn for a lesson with its key: its top is that lesson's start, in minutes
-- since the first hour, and its height is that lesson's length, or 40 pixels if the lesson is shorter.
pub layout_day_lessons-DrawnFor :
    (ls : List LessonTiming) (h : ℕ)
    → All IsTimed ls
    → (m : Dict LessonBlockStyle) × (layout_day_lessons ls h ≡ some m)
      × Entries (λ k s. Any (λ l. (l.id ≡ k) × DrawnFor h l s) ls) m
unfolding layout_day_lessons
layout_day_lessons-DrawnFor ls h t =
    let (bs, are) = blocks_of-total ls h t in
    let laid : layout_day_lessons ls h ≡ some (layout_blocks bs) = rw (are, layout_day_lessons) in
    (
      layout_blocks bs,
      laid,
      Entries-map (λ k s. Source h ls k s.top s.height)
          (λ k s. Any (λ l. (l.id ≡ k) × DrawnFor h l s) ls)
          (λ k s placed. Any-DrawnFor h k s ls t placed) (layout_blocks bs)
          (layout_day_lessons-Entries ls h (layout_blocks bs) laid),
    )
