-- ===== src/Schedule/Order.antt =====
-- The order in which the loop of layout-schedule meets the blocks (frontend/lib/schedule-layout.ts).
use mentorio.Prelude.{◌≡◌, refl, inl, inr, true, false, List, [], ◌∷◌, arith, All, Bool-cases}
use mentorio.Prelude.Int.{ℤ, ◌≤ℤ◌, pos, ◌+ℤ◌}
use mentorio.Schedule.{Block, block_at, before, insert, sort_onto}

-- `b` is drawn no later than any of `bs`.
abbrev pub IsFirst : Block → List Block → Type 0
IsFirst b bs = All (λ c. b.top ≤ℤ c.top) bs

abbrev pub IsSorted : List Block → Type 0
IsSorted [] = Unit
IsSorted (b ∷ bs) = IsFirst b bs × IsSorted bs

module _ (P : Block → Type 0) where
  pub insert-All : (b : Block) (bs : List Block) → P b → All P bs → All P (insert b bs)
  unfolding insert
  insert-All b [] p h = (p, tt)
  insert-All b (c ∷ cs) p (q, h) = ground (arith, insert-All b cs p h)

  pub sort_onto-All :
      (sorted bs : List Block) → All P sorted → All P bs → All P (sort_onto sorted bs)
  unfolding sort_onto
  sort_onto-All sorted [] h k = h
  sort_onto-All sorted (b ∷ bs) h (p, k) =
      sort_onto-All (insert b sorted) bs (insert-All b sorted p h) k

IsFirst-trans : (b c : Block) (bs : List Block) → b.top ≤ℤ c.top → IsFirst c bs → IsFirst b bs
IsFirst-trans b c [] h k = tt
IsFirst-trans b c (d ∷ ds) h (p, k) = (omega arith, IsFirst-trans b c ds h k)

before-le : (b c : Block) → before b c ≡ true → b.top ≤ℤ c.top
unfolding before
before-le b c h = ground arith

not-before-le : (b c : Block) → before b c ≡ false → c.top ≤ℤ b.top
unfolding before
not-before-le b c h = ground arith

insert-IsSorted : (b : Block) (bs : List Block) → IsSorted bs → IsSorted (insert b bs)
unfolding insert
insert-IsSorted b [] h = (tt, tt)
insert-IsSorted b (c ∷ cs) (first, h) = elim (Bool-cases (before b c)) [
  | inl e ↦
      let le = before-le b c e in rw (e, insert) ((le, IsFirst-trans b c cs le first), (first, h))
  | inr e ↦
      rw (e, insert)
        (insert-All (λ d. c.top ≤ℤ d.top) b cs (not-before-le b c e) first, insert-IsSorted b cs h)
]

pub sort_onto-IsSorted : (sorted bs : List Block) → IsSorted sorted → IsSorted (sort_onto sorted bs)
unfolding sort_onto
sort_onto-IsSorted sorted [] h = h
sort_onto-IsSorted sorted (b ∷ bs) h =
    sort_onto-IsSorted (insert b sorted) bs (insert-IsSorted b sorted h)

-- What `lessons.map` makes of a lesson: its bottom is its top and its height, at least 40 apart.
pub record IsDrawn (b : Block) : Type 0 where
  pub bottom_at : b.bottom ≡ b.top +ℤ b.height
  pub tall : pos 40 ≤ℤ b.height

pub block_at-IsDrawn : (id : _) (top end : ℤ) → IsDrawn (block_at id top end)
unfolding block_at
block_at-IsDrawn id top end = record { bottom_at = refl; tall = ground arith }
