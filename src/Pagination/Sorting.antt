-- ===== src/Pagination/Sorting.antt =====
-- What a set, a filter and a sort do to a list of numbers: what they contain, and their order.
use mentorio.Prelude.{
  ℕ, ◌≤◌, ◌<◌, ◌&&◌, ◌||◌, Bool, true, false, List, [], ◌∷◌, leb, ◌==◌, ◌≡◌, refl, ◌∙◌, ap, arith,
  All, All-map, Bool-cases, inl, inr,
}
use mentorio.Pagination.{add_once, filter_by, insert_number, sort_numbers}

abbrev pub contains : ℕ → List ℕ → Bool
contains p [] = false
contains p (q ∷ ps) = q == p || contains p ps

abbrev pub AreDistinct : List ℕ → Type 0
AreDistinct [] = Unit
AreDistinct (p ∷ ps) = (contains p ps ≡ false) × AreDistinct ps

-- Every number is less than those behind it.
abbrev pub IsIncreasing : List ℕ → Type 0
IsIncreasing [] = Unit
IsIncreasing (p ∷ ps) = All (λ q. p < q) ps × IsIncreasing ps

pub contains-add_once :
    (p q : ℕ) (ps : List ℕ) → contains p (add_once ps q) ≡ (contains p ps || q == p)
unfolding add_once
contains-add_once p q [] = ground arith
contains-add_once p q (r ∷ ps) = ground (arith, contains-add_once p q ps)

pub add_once-AreDistinct : (q : ℕ) (ps : List ℕ) → AreDistinct ps → AreDistinct (add_once ps q)
unfolding add_once
add_once-AreDistinct q [] h = (refl, tt)
add_once-AreDistinct q (r ∷ ps) (h, hs) =
    ground (arith, contains-add_once r q ps, add_once-AreDistinct q ps hs)

pub contains-filter_by :
    (test : ℕ → Bool) (p : ℕ) (ps : List ℕ)
    → contains p (filter_by test ps) ≡ (contains p ps && test p)
unfolding filter_by
contains-filter_by test p [] = refl
contains-filter_by test p (q ∷ ps) = ground (arith, contains-filter_by test p ps)

pub filter_by-AreDistinct :
    (test : ℕ → Bool) (ps : List ℕ) → AreDistinct ps → AreDistinct (filter_by test ps)
unfolding filter_by
filter_by-AreDistinct test [] h = tt
filter_by-AreDistinct test (q ∷ ps) (h, hs) =
    ground (arith, contains-filter_by test q ps, filter_by-AreDistinct test ps hs)

contains-insert_number :
    (p q : ℕ) (ps : List ℕ) → contains p (insert_number q ps) ≡ (q == p || contains p ps)
unfolding insert_number
contains-insert_number p q [] = refl
contains-insert_number p q (r ∷ ps) = ground (arith, contains-insert_number p q ps)

pub contains-sort_numbers : (p : ℕ) (ps : List ℕ) → contains p (sort_numbers ps) ≡ contains p ps
unfolding sort_numbers
contains-sort_numbers p [] = refl
contains-sort_numbers p (q ∷ ps) =
    contains-insert_number p q (sort_numbers ps)
    ∙ ap (λ b. q == p || b) (contains-sort_numbers p ps)

insert_number-above :
    (r p : ℕ) (ps : List ℕ) → r < p → All (λ q. r < q) ps → All (λ q. r < q) (insert_number p ps)
unfolding insert_number
insert_number-above r p [] h hs = (h, tt)
insert_number-above r p (q ∷ ps) h (k, hs) = ground (arith, insert_number-above r p ps h hs)

insert_number-IsIncreasing :
    (p : ℕ) (ps : List ℕ)
    → contains p ps ≡ false
    → IsIncreasing ps
    → IsIncreasing (insert_number p ps)
unfolding insert_number
insert_number-IsIncreasing p [] new h = (tt, tt)
insert_number-IsIncreasing p (q ∷ ps) new (h, hs) = elim (Bool-cases (leb p q)) [
  | inl le ↦
      let lt : p < q = ground arith in rw le ((lt, All-map _ _ (λ r k. omega arith) ps h), (h, hs))
  | inr gt ↦ rw gt (
    insert_number-above q p ps (ground arith) h,
    insert_number-IsIncreasing p ps (ground arith) hs,
  )
]

pub sort_numbers-IsIncreasing : (ps : List ℕ) → AreDistinct ps → IsIncreasing (sort_numbers ps)
unfolding sort_numbers
sort_numbers-IsIncreasing [] h = tt
sort_numbers-IsIncreasing (p ∷ ps) (h, hs) =
    insert_number-IsIncreasing p (sort_numbers ps) (contains-sort_numbers p ps ∙ h)
      (sort_numbers-IsIncreasing ps hs)

pub All-of_contains :
    (P : ℕ → Type 0) (ps : List ℕ) → ((p : ℕ) → contains p ps ≡ true → P p) → All P ps
All-of_contains P [] h = tt
All-of_contains P (p ∷ ps) h =
    (h p (ground arith), All-of_contains P ps (λ q k. h q (ground arith)))

pub contains-above : (r p : ℕ) (ps : List ℕ) → r ≤ p → All (λ q. p < q) ps → contains r ps ≡ false
contains-above r p [] le h = refl
contains-above r p (q ∷ ps) le (lt, h) = ground (arith, contains-above r p ps le h)
