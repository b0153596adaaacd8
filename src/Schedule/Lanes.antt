-- ===== src/Schedule/Lanes.antt =====
-- No two lessons of a day column are drawn over each other (frontend/lib/schedule-layout.ts): the
-- invariant of the loop over the sorted blocks.
use Prim.Native.Nat.{◌<◌}
use mathlib.Core.Path.{subst}
use native.Mathlib.Decide.{ℕ_discrete}
use mentorio.Prelude.{
  ℕ, zero, suc, ◌≡◌, refl, sym, ◌≢◌, ◌⊎◌, inl, inr, String, true, Option, none, some, List, [], ◌∷◌,
  arith, length, All, All-map, All-append, Pairs, Pairs-snoc, Bool-cases, leb→le,
}
use mentorio.Prelude.Int.{ℤ, ◌≤ℤ◌, leb_ℤ, +ℤ_parts, ◌+ℤ◌}
use mentorio.Prelude.Dict.{Dict, put, Entries, Entries-map, Entries-put, ValuePairs, ValuePairs-put}
use mentorio.Schedule.{
  Block, LessonBlockStyle, Column, style_of, emit, flush, free_lane, set_lane, is_past,
  joined_bottom, join, place, place_all,
}
use mentorio.Schedule.Order.{IsDrawn, IsSorted}

abbrev pub bottom_of : LessonBlockStyle → ℤ
bottom_of s = s.top +ℤ s.height

-- One is below the other, or they stand in different lanes of the same division of the column.
abbrev pub Apart : LessonBlockStyle → LessonBlockStyle → Type 0
Apart s t =
    (bottom_of s ≤ℤ t.top) ⊎ (bottom_of t ≤ℤ s.top) ⊎ ((s.lanes ≡ t.lanes) × (s.lane ≢ t.lane))

pub Apart-symm : (s t : LessonBlockStyle) → Apart s t → Apart t s
Apart-symm s t (inl h) = inr (inl h)
Apart-symm s t (inr (inl h)) = inl h
Apart-symm s t (inr (inr (e, ne))) = inr (inr (sym e, λ f. ne (sym f)))

-- The lane's last block ends at or below `x`, and the lane exists.
abbrev pub EndsBy : List ℤ → ℕ → ℤ → Type 0
EndsBy [] lane x = ⊥
EndsBy (e ∷ es) zero x = x ≤ℤ e
EndsBy (e ∷ es) (suc lane) x = EndsBy es lane x

abbrev pub Within : Option ℤ → ℤ → Type 0
Within none x = ⊥
Within (some g) x = x ≤ℤ g

-- What the loop knows of a block `q` of the open group, `t` being the last top that it met.
pub record InGroup (ends : List ℤ) (bottom : Option ℤ) (t : ℤ) (q : Block) : Type 0 where
  pub drawn : IsDrawn q
  pub met : q.top ≤ℤ t
  pub within : Within bottom q.bottom
  pub ends_by : EndsBy ends q.lane q.bottom

-- Of an earlier and a later block of the group.
abbrev pub Stacked : Block → Block → Type 0
Stacked q r = (q.lane ≢ r.lane) ⊎ (q.bottom ≤ℤ r.top)

pub record Inv (s : Column) (t : ℤ) : Type 0 where
  pub apart : ValuePairs Apart s.result
  pub past : Entries (λ _ e. bottom_of e ≤ℤ t) s.result
  pub bounded : Entries (λ _ e. e.lane < e.lanes) s.result
  pub ahead : All (λ q. Entries (λ _ e. bottom_of e ≤ℤ q.top) s.result) s.group
  pub in_group : All (InGroup s.lane_ends s.group_bottom t) s.group
  pub stacked : Pairs Stacked s.group

EndsBy-lt : (ends : List ℤ) (lane : ℕ) (x : ℤ) → EndsBy ends lane x → lane < length ends
EndsBy-lt [] lane x h = absurd h
EndsBy-lt (e ∷ es) zero x h = omega arith
EndsBy-lt (e ∷ es) (suc lane) x h = omega (arith, EndsBy-lt es lane x h)

-- The chosen lane is free at `top`: whatever ends by its end is over by then.
free_lane-EndsBy : (ends : List ℤ) (top x : ℤ) → EndsBy ends (free_lane ends top) x → x ≤ℤ top
unfolding free_lane
free_lane-EndsBy [] top x h = absurd h
free_lane-EndsBy (e ∷ es) top x h = elim (Bool-cases (leb_ℤ e top)) [
  | inl free ↦
      let fits : x ≤ℤ e = rw (free, free_lane) at h in let over = leb→le _ _ free in omega arith
  | inr busy ↦ free_lane-EndsBy es top x (rw (busy, free_lane) at h)
]

-- A block stays within its lane's end when the free lane gets a new one.
set_lane-EndsBy :
    (ends : List ℤ) (top bottom x : ℤ) (lane : ℕ)
    → top ≤ℤ bottom
    → EndsBy ends lane x
    → EndsBy (set_lane ends (free_lane ends top) bottom) lane x
unfolding free_lane set_lane
set_lane-EndsBy [] top bottom x lane le h = absurd h
set_lane-EndsBy (e ∷ es) top bottom x zero le h = ground arith
set_lane-EndsBy (e ∷ es) top bottom x (suc lane) le h =
    ground (arith, set_lane-EndsBy es top bottom x lane le h)

set_lane-EndsBy_self :
    (ends : List ℤ) (top bottom : ℤ)
    → EndsBy (set_lane ends (free_lane ends top) bottom) (free_lane ends top) bottom
unfolding free_lane set_lane
set_lane-EndsBy_self [] top bottom = omega arith
set_lane-EndsBy_self (e ∷ es) top bottom = ground (arith, set_lane-EndsBy_self es top bottom)

IsDrawn-le : (b : Block) → IsDrawn b → b.top ≤ℤ b.bottom
IsDrawn-le b d = rw d.bottom_at (omega (arith, d.tall, +ℤ_parts b.top b.height))

Stacked-join :
    (ends : List ℤ) (bottom : Option ℤ) (t : ℤ) (b q : Block)
    → InGroup ends bottom t q
    → Stacked q (record b { lane = free_lane ends b.top })
Stacked-join ends bottom t b q h = elim (ℕ_discrete q.lane (free_lane ends b.top)) [
  | yes same_lane ↦ inr (
      free_lane-EndsBy ends b.top q.bottom
        (subst (λ l. EndsBy ends l q.bottom) same_lane h.ends_by))
  | no other ↦ inl other
]

-- The block's facts, once `b` has joined its non-empty group.
InGroup-join :
    (ends : List ℤ) (bottom : Option ℤ) (t : ℤ) (b q : Block) (rest : List Block)
    → IsDrawn b
    → t ≤ℤ b.top
    → InGroup ends bottom t q
    → InGroup
        (set_lane ends (free_lane ends b.top) b.bottom)
        (some (joined_bottom (q ∷ rest) bottom b.bottom))
        b.top
        q
InGroup-join ends none t b q rest d le h = absurd h.within
InGroup-join ends (some g) t b q rest d le h = record {
  drawn = h.drawn;
  met = omega (arith, h.met);
  within = ground (arith, h.within);
  ends_by = set_lane-EndsBy ends b.top b.bottom q.bottom q.lane (IsDrawn-le b d) h.ends_by;
}

joined_bottom-le : (qs : List Block) (bottom : Option ℤ) (x : ℤ) → x ≤ℤ joined_bottom qs bottom x
joined_bottom-le [] bottom x = omega arith
joined_bottom-le (q ∷ qs) none x = omega arith
joined_bottom-le (q ∷ qs) (some g) x = ground arith

group-join :
    (ends : List ℤ) (bottom : Option ℤ) (t : ℤ) (b : Block) (qs : List Block)
    → IsDrawn b
    → t ≤ℤ b.top
    → All (InGroup ends bottom t) qs
    → All
        (InGroup
          (set_lane ends (free_lane ends b.top) b.bottom)
          (some (joined_bottom qs bottom b.bottom))
          b.top)
        qs
group-join ends bottom t b [] d le h = tt
group-join ends bottom t b (q ∷ qs) d le (h, hs) = (
  InGroup-join ends bottom t b q qs d le h,
  All-map (InGroup ends bottom t) _ (λ r. InGroup-join ends bottom t b r qs d le) qs hs,
)

join-Inv :
    (s : Column) (b : Block) (t : ℤ) → IsDrawn b → t ≤ℤ b.top → Inv s t → Inv (join s b) b.top
unfolding join
join-Inv s b t d le inv = record {
  apart = inv.apart;
  past = past_b;
  bounded = inv.bounded;
  ahead = All-append _ s.group _ inv.ahead (past_b, tt);
  in_group =
      All-append _ s.group _ (group-join s.lane_ends s.group_bottom t b s.group d le inv.in_group) (
        record {
          drawn = record { bottom_at = d.bottom_at; tall = d.tall };
          met = omega arith;
          within = joined_bottom-le s.group s.group_bottom b.bottom;
          ends_by = set_lane-EndsBy_self s.lane_ends b.top b.bottom;
        },
        tt,
      );
  stacked = Pairs-snoc Stacked s.group _ inv.stacked (
      All-map (InGroup s.lane_ends s.group_bottom t) _ (Stacked-join s.lane_ends s.group_bottom t b)
        s.group inv.in_group);
}
  where
    past_b : Entries (λ _ e. bottom_of e ≤ℤ b.top) s.result
    past_b = Entries-map (λ _ e. bottom_of e ≤ℤ t) _ (λ _ e h. omega arith) s.result inv.past

module _ (lanes : ℕ) where
  -- `r` is drawn apart from every entry, and from those of the blocks emitted first.
  abbrev ApartFrom : Dict LessonBlockStyle → Block → Type 0
  ApartFrom m r = Entries (λ _ e. Apart e (style_of lanes r)) m

  ApartFrom-put :
      (b : Block) (rs : List Block) (m : Dict LessonBlockStyle)
      → All (ApartFrom m) rs
      → All (λ r. Apart (style_of lanes b) (style_of lanes r)) rs
      → All (ApartFrom (put b.id (style_of lanes b) m)) rs
  ApartFrom-put b [] m h k = tt
  ApartFrom-put b (r ∷ rs) m (h, hs) (k, ks) = (
    Entries-put (λ _ e. Apart e (style_of lanes r)) b.id (style_of lanes b) m k h,
    ApartFrom-put b rs m hs ks,
  )

  emit-ValuePairs :
      (bs : List Block) (m : Dict LessonBlockStyle)
      → ValuePairs Apart m
      → All (ApartFrom m) bs
      → Pairs (λ q r. Apart (style_of lanes q) (style_of lanes r)) bs
      → ValuePairs Apart (emit lanes bs m)
  unfolding emit
  emit-ValuePairs [] m h k p = h
  emit-ValuePairs (b ∷ bs) m h (k, ks) (p, ps) =
      emit-ValuePairs bs (put b.id (style_of lanes b) m)
        (ValuePairs-put Apart Apart-symm b.id (style_of lanes b) m k h) (ApartFrom-put b bs m ks p)
        ps

  pub emit-Entries :
      (P : String → LessonBlockStyle → Type 0) (bs : List Block) (m : Dict LessonBlockStyle)
      → Entries P m
      → All (λ q. P q.id (style_of lanes q)) bs
      → Entries P (emit lanes bs m)
  unfolding emit
  emit-Entries P [] m h k = h
  emit-Entries P (b ∷ bs) m h (k, ks) =
      emit-Entries P bs (put b.id (style_of lanes b) m)
        (Entries-put P b.id (style_of lanes b) m k h) ks

  Apart-of_Stacked :
      (q r : Block) → IsDrawn q → Stacked q r → Apart (style_of lanes q) (style_of lanes r)
  Apart-of_Stacked q r d (inl ne) = inr (inr (refl, ne))
  Apart-of_Stacked q r d (inr le) = inl (rw (← d.bottom_at) le)

  group-Apart :
      (bs : List Block)
      → All IsDrawn bs
      → Pairs Stacked bs
      → Pairs (λ q r. Apart (style_of lanes q) (style_of lanes r)) bs
  group-Apart [] h p = tt
  group-Apart (b ∷ bs) (d, h) (p, ps) =
      (All-map (Stacked b) _ (λ r. Apart-of_Stacked b r d) bs p, group-Apart bs h ps)

-- Closing a group keeps the invariant, if all of it is over by `x`.
pub flush-Inv :
    (s : Column) (t x : ℤ) → t ≤ℤ x → All (λ q. q.bottom ≤ℤ x) s.group → Inv s t → Inv (flush s) x
unfolding flush
flush-Inv s t x le over inv = record {
  apart =
      emit-ValuePairs lanes s.group s.result inv.apart
        (All-map _ _ (λ q h. Entries-map _ _ (λ _ e below. inl below) s.result h) s.group inv.ahead)
        (group-Apart lanes s.group drawn inv.stacked);
  past =
      emit-Entries lanes (λ _ e. bottom_of e ≤ℤ x) s.group s.result
        (Entries-map (λ _ e. bottom_of e ≤ℤ t) _ (λ _ e h. omega arith) s.result inv.past)
        (ends_over s.group drawn over);
  bounded =
      emit-Entries lanes (λ _ e. e.lane < e.lanes) s.group s.result inv.bounded
        (All-map (InGroup s.lane_ends s.group_bottom t) _
          (λ q h. EndsBy-lt s.lane_ends q.lane q.bottom h.ends_by) s.group inv.in_group);
  ahead = tt;
  in_group = tt;
  stacked = tt;
}
  where
    lanes : ℕ
    lanes = length s.lane_ends

    drawn : All IsDrawn s.group
    drawn = All-map (InGroup s.lane_ends s.group_bottom t) _ (λ q h. h.drawn) s.group inv.in_group

    ends_over :
        (bs : List Block)
        → All IsDrawn bs
        → All (λ q. q.bottom ≤ℤ x) bs
        → All (λ q. bottom_of (style_of lanes q) ≤ℤ x) bs
    ends_over [] h k = tt
    ends_over (b ∷ bs) (d, h) (o, k) = (rw (← d.bottom_at) o, ends_over bs h k)

over_of_is_past : (bottom : Option ℤ) (x y : ℤ) → is_past bottom x ≡ true → Within bottom y → y ≤ℤ x
over_of_is_past none x y past h = absurd h
over_of_is_past (some g) x y past h = let le = leb→le _ _ past in omega arith

place-Inv :
    (s : Column) (b : Block) (t : ℤ) → IsDrawn b → t ≤ℤ b.top → Inv s t → Inv (place s b) b.top
unfolding place
place-Inv s b t d le inv = elim (Bool-cases (is_past s.group_bottom b.top)) [
  | inl past ↦
      rw (past, place)
        (join-Inv (flush s) b b.top d (omega arith) (
          flush-Inv s t b.top le
            (All-map (InGroup s.lane_ends s.group_bottom t) _
              (λ q h. over_of_is_past s.group_bottom b.top q.bottom past h.within) s.group
              inv.in_group)
            inv))
  | inr open_group ↦ rw (open_group, place) (join-Inv s b t d le inv)
]

-- The last top that the loop meets.
pub last_top : ℤ → List Block → ℤ
last_top t [] = t
last_top t (b ∷ bs) = last_top b.top bs

pub place_all-Inv :
    (s : Column) (t : ℤ) (bs : List Block)
    → All IsDrawn bs
    → IsSorted bs
    → All (λ b. t ≤ℤ b.top) bs
    → Inv s t
    → Inv (place_all s bs) (last_top t bs)
unfolding place_all last_top
place_all-Inv s t [] d h k inv = inv
place_all-Inv s t (b ∷ bs) (d, ds) (first, h) (le, k) inv =
    place_all-Inv (place s b) b.top bs ds h first (place-Inv s b t d le inv)
