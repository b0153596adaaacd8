-- ===== src/Schedule/Cover.antt =====
-- Every lesson of the day is drawn, where its own times put it (frontend/lib/schedule-layout.ts).
use mathlib.Core.Path.{subst}
use mathlib.Core.Option.{some-injective}
use mentorio.Prelude.{
  ℕ, ◌≡◌, refl, sym, ap, ◌∙◌, ◌⊎◌, inl, inr, String, some, List, [], ◌∷◌, length, All, All-map,
  All-append, Any, Any-append_left, Any-append_last, Bool-cases,
}
use mentorio.Prelude.Int.{ℤ, ◌-ℤ◌, max_ℤ}
use mentorio.Prelude.Dict.{Dict, put, HasKey, HasKey-put, get-put_self, Entries}
use mentorio.Schedule.{
  Block, LessonBlockStyle, LessonTiming, Column, min_block_px, style_of, emit, flush, is_past, join,
  place, place_all, no_column, block_of, blocks_of, block_at, to_minutes, layout_blocks,
  layout_day_lessons, before, insert, sort_onto,
}
use mentorio.Schedule.Order.{sort_onto-All}
use mentorio.Schedule.Lanes.{emit-Entries}
use mentorio.Schedule.Separate.{block_of-eq, blocks_of-cons, layout_day_lessons-eq}

-- What is true of each block's id, top and height is true of each entry of the result.
module _ (P : String → ℤ → ℤ → Type 0) where
  abbrev OfBlock : Block → Type 0
  OfBlock b = P b.id b.top b.height

  abbrev Keeps : Column → Type 0
  Keeps s = Entries (λ k v. P k v.top v.height) s.result × All OfBlock s.group

  flush-Keeps : (s : Column) → Keeps s → Keeps (flush s)
  unfolding flush
  flush-Keeps s (h, k) =
      (emit-Entries (length s.lane_ends) (λ i v. P i v.top v.height) s.group s.result h k, tt)

  join-Keeps : (s : Column) (b : Block) → OfBlock b → Keeps s → Keeps (join s b)
  unfolding join
  join-Keeps s b p (h, k) = (h, All-append OfBlock s.group _ k (p, tt))

  place-Keeps : (s : Column) (b : Block) → OfBlock b → Keeps s → Keeps (place s b)
  unfolding place
  place-Keeps s b p h = elim (Bool-cases (is_past s.group_bottom b.top)) [
    | inl past ↦ rw (past, place) (join-Keeps (flush s) b p (flush-Keeps s h))
    | inr open_group ↦ rw (open_group, place) (join-Keeps s b p h)
  ]

  place_all-Keeps :
      (s : Column) (bs : List Block) → All OfBlock bs → Keeps s → Keeps (place_all s bs)
  unfolding place_all
  place_all-Keeps s [] p h = h
  place_all-Keeps s (b ∷ bs) (p, ps) h = place_all-Keeps (place s b) bs ps (place-Keeps s b p h)

  layout_blocks-Entries :
      (bs : List Block) → All OfBlock bs → Entries (λ k v. P k v.top v.height) (layout_blocks bs)
  unfolding layout_blocks
  layout_blocks-Entries bs h =
      (flush-Keeps (place_all no_column (sort_onto [] bs))
        (place_all-Keeps no_column _ (sort_onto-All OfBlock [] bs tt h) (tt, tt))).0

-- A block with the id `k` gives the result an entry under `k`.
module _ (k : String) where
  abbrev Named : List Block → Type 0
  Named bs = Any (λ b. b.id ≡ k) bs

  insert-Named_self : (b : Block) (bs : List Block) → b.id ≡ k → Named (insert b bs)
  unfolding insert
  insert-Named_self b [] e = inl e
  insert-Named_self b (c ∷ cs) e = elim (Bool-cases (before b c)) [
    | inl first ↦ rw (first, insert) (inl e)
    | inr later ↦ rw (later, insert) (inr (insert-Named_self b cs e))
  ]

  insert-Named : (b : Block) (bs : List Block) → Named bs → Named (insert b bs)
  unfolding insert
  insert-Named b [] h = absurd h
  insert-Named b (c ∷ cs) h = elim (Bool-cases (before b c)) [
    | inl first ↦ rw (first, insert) (inr h)
    | inr later ↦ rw (later, insert) (elim h [ inl e ↦ inl e | inr r ↦ inr (insert-Named b cs r) ])
  ]

  sort_onto-Named : (sorted bs : List Block) → Named sorted ⊎ Named bs → Named (sort_onto sorted bs)
  unfolding sort_onto
  sort_onto-Named sorted [] (inl h) = h
  sort_onto-Named sorted [] (inr h) = absurd h
  sort_onto-Named sorted (b ∷ bs) (inl h) =
      sort_onto-Named (insert b sorted) bs (inl (insert-Named b sorted h))
  sort_onto-Named sorted (b ∷ bs) (inr (inl e)) =
      sort_onto-Named (insert b sorted) bs (inl (insert-Named_self b sorted e))
  sort_onto-Named sorted (b ∷ bs) (inr (inr h)) = sort_onto-Named (insert b sorted) bs (inr h)

  emit-HasKey :
      (lanes : ℕ) (bs : List Block) (m : Dict LessonBlockStyle)
      → HasKey k m ⊎ Named bs
      → HasKey k (emit lanes bs m)
  unfolding emit
  emit-HasKey lanes [] m (inl h) = h
  emit-HasKey lanes [] m (inr h) = absurd h
  emit-HasKey lanes (b ∷ bs) m (inl h) =
      emit-HasKey lanes bs _ (inl (HasKey-put k b.id (style_of lanes b) m h))
  emit-HasKey lanes (b ∷ bs) m (inr (inl e)) = emit-HasKey lanes bs _ (
      inl (
        subst (λ i. HasKey i (put b.id (style_of lanes b) m)) e
          (style_of lanes b, get-put_self b.id (style_of lanes b) m)))
  emit-HasKey lanes (b ∷ bs) m (inr (inr h)) = emit-HasKey lanes bs _ (inr h)

  abbrev Holds : Column → Type 0
  Holds s = HasKey k s.result ⊎ Named s.group

  flush-Holds : (s : Column) → Holds s → HasKey k (flush s).result
  unfolding flush
  flush-Holds s h = emit-HasKey (length s.lane_ends) s.group s.result h

  join-Holds : (s : Column) (b : Block) → Holds s ⊎ (b.id ≡ k) → Holds (join s b)
  unfolding join
  join-Holds s b (inl (inl h)) = inl h
  join-Holds s b (inl (inr h)) = inr (Any-append_left (λ q. q.id ≡ k) s.group _ h)
  join-Holds s b (inr e) = inr (Any-append_last (λ q. q.id ≡ k) s.group _ e)

  place-Holds : (s : Column) (b : Block) → Holds s ⊎ (b.id ≡ k) → Holds (place s b)
  unfolding place
  place-Holds s b h = elim (Bool-cases (is_past s.group_bottom b.top)) [
    | inl past ↦
        rw (past, place)
          (join-Holds (flush s) b
            (elim h [ inl old ↦ inl (inl (flush-Holds s old)) | inr e ↦ inr e ]))
    | inr open_group ↦ rw (open_group, place) (join-Holds s b h)
  ]

  place_all-Holds : (s : Column) (bs : List Block) → Holds s ⊎ Named bs → Holds (place_all s bs)
  unfolding place_all
  place_all-Holds s [] (inl h) = h
  place_all-Holds s [] (inr h) = absurd h
  place_all-Holds s (b ∷ bs) (inl h) =
      place_all-Holds (place s b) bs (inl (place-Holds s b (inl h)))
  place_all-Holds s (b ∷ bs) (inr (inl e)) =
      place_all-Holds (place s b) bs (inl (place-Holds s b (inr e)))
  place_all-Holds s (b ∷ bs) (inr (inr h)) = place_all-Holds (place s b) bs (inr h)

  layout_blocks-HasKey : (bs : List Block) → Named bs → HasKey k (layout_blocks bs)
  unfolding layout_blocks
  layout_blocks-HasKey bs h =
      flush-Holds (place_all no_column (sort_onto [] bs))
        (place_all-Holds no_column _ (inr (sort_onto-Named [] bs (inr h))))

-- The place of a lesson, by the code's own reading of its times.
abbrev pub PlacedBy : ℕ → LessonTiming → LessonBlockStyle → Type 0
PlacedBy h l s =
    (end : ℤ) × (to_minutes l.start_time h ≡ some s.top)
    × (to_minutes l.end_time h ≡ some end)
    × (s.height ≡ max_ℤ (end -ℤ s.top) min_block_px)

abbrev pub Source : ℕ → List LessonTiming → String → ℤ → ℤ → Type 0
Source h ls k top height =
    Any
      (λ l. (l.id ≡ k) × PlacedBy h l (record { top = top; height = height; lane = 0; lanes = 0 }))
      ls

block_at-height :
    (id : String) (top end : ℤ) (b : Block)
    → block_at id top end ≡ b
    → (id ≡ b.id) × (top ≡ b.top) × (b.height ≡ max_ℤ (end -ℤ b.top) min_block_px)
unfolding block_at
block_at-height id top end b e =
    subst (λ c. (id ≡ c.id) × (top ≡ c.top) × (c.height ≡ max_ℤ (end -ℤ c.top) min_block_px)) e
      (refl, refl, refl)

block_of-Source :
    (h : ℕ) (l : LessonTiming) (b : Block)
    → block_of l h ≡ some b
    → (l.id ≡ b.id) × PlacedBy h l (style_of 0 b)
block_of-Source h l b e =
    let (top, end, at_top, at_end, is) = block_of-eq l h b e in
    let (same_id, same_top, height) = block_at-height l.id top end b is in
    (same_id, (end, at_top ∙ ap some same_top, at_end, height))

blocks_of-Source :
    (h : ℕ) (ls : List LessonTiming) (bs : List Block)
    → blocks_of ls h ≡ some bs
    → All (λ b. Source h ls b.id b.top b.height) bs
unfolding blocks_of
blocks_of-Source h [] bs e = subst (All _) (some-injective _ _ e) tt
blocks_of-Source h (l ∷ ls) bs e =
    let (b, rest, is, are, eq) = blocks_of-cons l ls h bs e in
    subst (All (λ c. Source h (l ∷ ls) c.id c.top c.height)) eq (
      inl (block_of-Source h l b is),
      All-map (λ c. Source h ls c.id c.top c.height) _ (λ c s. inr s) rest
          (blocks_of-Source h ls rest are),
    )

blocks_of-Named :
    (h : ℕ) (k : String) (ls : List LessonTiming) (bs : List Block)
    → blocks_of ls h ≡ some bs
    → Any (λ l. l.id ≡ k) ls
    → Named k bs
blocks_of-Named h k [] bs e m = absurd m
blocks_of-Named h k (l ∷ ls) bs e (inl here) =
    let (b, rest, is, are, eq) = blocks_of-cons l ls h bs e in
    subst (Named k) eq (inl (sym (block_of-Source h l b is).0 ∙ here))
blocks_of-Named h k (l ∷ ls) bs e (inr there) =
    let (b, rest, is, are, eq) = blocks_of-cons l ls h bs e in
    subst (Named k) eq (inr (blocks_of-Named h k ls rest are there))

pub layout_day_lessons-Entries :
    (ls : List LessonTiming) (h : ℕ) (m : Dict LessonBlockStyle)
    → layout_day_lessons ls h ≡ some m
    → Entries (λ k s. Source h ls k s.top s.height) m
layout_day_lessons-Entries ls h m laid =
    let (bs, are, eq) = layout_day_lessons-eq ls h m laid in
    rw (← eq) (layout_blocks-Entries (Source h ls) bs (blocks_of-Source h ls bs are))

-- No lesson is left out: the id of each lesson has an entry in the result.
pub layout_day_lessons-HasKey :
    (ls : List LessonTiming) (h : ℕ) (m : Dict LessonBlockStyle) (k : String)
    → layout_day_lessons ls h ≡ some m
    → Any (λ l. l.id ≡ k) ls
    → HasKey k m
layout_day_lessons-HasKey ls h m k laid named =
    let (bs, are, eq) = layout_day_lessons-eq ls h m laid in
    subst (HasKey k) eq (layout_blocks-HasKey k bs (blocks_of-Named h k ls bs are named))
