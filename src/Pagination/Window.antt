-- ===== src/Pagination/Window.antt =====
-- The page numbers that frontend/components/ui/pagination.tsx shows, and where it leaves pages out.
use mentorio.Prelude.{
  ℕ, suc, ◌+◌, ◌-◌, ◌≤◌, ◌<◌, ◌&&◌, ◌||◌, Bool, true, false, List, [], ◌∷◌, Option, none, some, leb,
  ◌==◌, ◌≡◌, ◌↔◌, refl, ap, arith, All, ◌⊎◌,
}
use mentorio.Pagination.{PageItem, number, ellipsis, spaced, page_numbers, page_window}
use mentorio.Pagination.Sorting.{
  contains, IsIncreasing, contains-add_once, add_once-AreDistinct, contains-filter_by,
  filter_by-AreDistinct, contains-sort_numbers, sort_numbers-IsIncreasing, All-of_contains,
  contains-above,
}

-- Behind the page `prev` the items go on to the last page, `count`: the next page, or an ellipsis for
-- one page or more and then a page.
abbrev pub GoesOn : ℕ → ℕ → List PageItem → Type 0
GoesOn count prev [] = prev ≡ count
GoesOn count prev (number p ∷ rest) = (p ≡ suc prev) × GoesOn count p rest
GoesOn count prev (ellipsis ∷ number p ∷ rest) = (suc prev < p) × GoesOn count p rest
GoesOn count prev (ellipsis ∷ _) = ⊥

abbrev pub shows : ℕ → List PageItem → Bool
shows p [] = false
shows p (number q ∷ rest) = q == p || shows p rest
shows p (ellipsis ∷ rest) = shows p rest

module _ (page count : ℕ) where
  contains-page_numbers :
      (p : ℕ)
      → contains p (page_numbers page count) ≡ (
          (1 == p || (count == p || (page == p || (page - 1 == p || page + 1 == p))))
          && (leb 1 p && leb p count))
  unfolding page_numbers
  contains-page_numbers p =
      simp (contains-sort_numbers, contains-filter_by, contains-add_once) (ground arith)

  page_numbers-IsIncreasing : IsIncreasing (page_numbers page count)
  unfolding page_numbers
  page_numbers-IsIncreasing = sort_numbers-IsIncreasing _ (
      filter_by-AreDistinct _ _ (
        add_once-AreDistinct (page + 1) _ (
          add_once-AreDistinct (page - 1) _
            (add_once-AreDistinct page _ (add_once-AreDistinct count (1 ∷ []) (refl, tt))))))

shows-spaced : (p : ℕ) (prev : Option ℕ) (ps : List ℕ) → shows p (spaced prev ps) ≡ contains p ps
unfolding spaced
shows-spaced p prev [] = refl
shows-spaced p none (q ∷ ps) = ap (λ b. q == p || b) (shows-spaced p (some q) ps)
shows-spaced p (some r) (q ∷ ps) = ground (arith, shows-spaced p (some q) ps)

-- Numbers in order, above `prev`, up to `count` and with it among them.
spaced-GoesOn :
    (count prev : ℕ) (ps : List ℕ)
    → IsIncreasing (prev ∷ ps)
    → All (λ q. q ≤ count) ps
    → contains count (prev ∷ ps) ≡ true
    → GoesOn count prev (spaced (some prev) ps)
unfolding spaced
spaced-GoesOn count prev [] inc h last = ground arith
spaced-GoesOn count prev (p ∷ ps) ((lt, _), (above, inc)) (le, h) last =
    ground (arith, spaced-GoesOn count p ps (above, inc) h)

spaced-GoesOn_first :
    (count : ℕ) (ps : List ℕ)
    → IsIncreasing ps
    → All (λ q. q ≤ count) ps
    → contains 0 ps ≡ false
    → contains 1 ps ≡ true
    → contains count ps ≡ true
    → GoesOn count 0 (spaced none ps)
unfolding spaced
spaced-GoesOn_first count [] inc h no_zero one last = cc
spaced-GoesOn_first count (p ∷ ps) (above, inc) (le, h) lo one last =
    let first : p ≡ 1 = ground (arith, contains-above 1 p ps) in
    (first, spaced-GoesOn count p ps (above, inc) h last)

-- The pages that are shown: the first, the last, the current one and its neighbours, within the range.
abbrev pub IsShown : ℕ → ℕ → ℕ → Type 0
IsShown page count p =
    (1 ≤ p) × (p ≤ count) × ((p ≡ 1) ⊎ ((p ≡ count) ⊎ ((page ≤ p + 1) × (p ≤ page + 1))))

-- The control shows exactly the first page, the last, the current one and its neighbours, those of them
-- that there are. From the first page to the last the items go up by one page, or leave out one page or
-- more by an ellipsis: an ellipsis stands wherever a page is left out, and nowhere else.
pub page_window-GoesOn :
    (page count : ℕ)
    → 1 ≤ count
    → GoesOn count 0 (page_window page count)
      × ((p : ℕ) → (shows p (page_window page count) ≡ true) ↔ IsShown page count p)
unfolding page_window
page_window-GoesOn page count some_page = (
  spaced-GoesOn_first count (page_numbers page count) (page_numbers-IsIncreasing page count)
      (All-of_contains _ _ (λ p h. ground (arith, contains-page_numbers page count p)))
      (ground (arith, contains-page_numbers page count 0))
      (ground (arith, contains-page_numbers page count 1))
      (ground (arith, contains-page_numbers page count count)),
  λ p.
      rw (shows-spaced p none (page_numbers page count), contains-page_numbers page count p)
        (ground arith),
)
