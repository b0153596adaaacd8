-- ===== src/Pagination.antt =====
-- The page numbers of frontend/components/ui/pagination.tsx: the first, the last, the current one and
-- its neighbours, in order, with an ellipsis for what is left out.
pub mod Sorting
pub mod Window
mod Tests
use mentorio.Prelude.{
  ℕ, ◌+◌, ◌-◌, ◌&&◌, Bool, List, [], ◌∷◌, Option, none, some, leb, ltb, ◌==◌, if◌then◌else◌,
}

-- `new Set([…])`: a number that is there already is not added again.
unfoldable pub add_once : List ℕ → ℕ → List ℕ
add_once [] p = p ∷ []
add_once (q ∷ set) p = if q == p then q ∷ set else q ∷ add_once set p

unfoldable pub filter_by : (ℕ → Bool) → List ℕ → List ℕ
filter_by test [] = []
filter_by test (p ∷ ps) = let rest = filter_by test ps in if test p then p ∷ rest else rest

-- `sort((a, b) => a - b)`
unfoldable pub insert_number : ℕ → List ℕ → List ℕ
insert_number p [] = p ∷ []
insert_number p (q ∷ ps) = if leb p q then p ∷ q ∷ ps else q ∷ insert_number p ps

unfoldable pub sort_numbers : List ℕ → List ℕ
sort_numbers [] = []
sort_numbers (p ∷ ps) = insert_number p (sort_numbers ps)

pub data PageItem : Type 0 where
  number : ℕ → PageItem
  ellipsis : PageItem

-- The loop, with `prev`.
unfoldable pub spaced : Option ℕ → List ℕ → List PageItem
spaced prev [] = []
spaced none (p ∷ ps) = number p ∷ spaced (some p) ps
spaced (some prev) (p ∷ ps) =
    let rest = spaced (some p) ps in
    if ltb 1 (p - prev) then ellipsis ∷ number p ∷ rest else number p ∷ rest

-- Page 0 less 1 is 0 here and -1 in the code; the filter drops both.
unfoldable pub page_numbers : ℕ → ℕ → List ℕ
page_numbers page page_count =
    let window =
      add_once (add_once (add_once (add_once (1 ∷ []) page_count) page) (page - 1)) (page + 1) in
    sort_numbers (filter_by (λ p. leb 1 p && leb p page_count) window)

unfoldable pub page_window : ℕ → ℕ → List PageItem
page_window page page_count = spaced none (page_numbers page page_count)
