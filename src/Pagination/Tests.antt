-- ===== src/Pagination/Tests.antt =====
-- The page control on pages of ten, and the theorem about it at one of them.
use mentorio.Prelude.{ℕ, arith, [], ◌∷◌, true, ◌≡◌, ◌↔◌, refl}
use mentorio.Pagination.{
  number, ellipsis, add_once, filter_by, insert_number, sort_numbers, spaced, page_numbers,
  page_window,
}
use mentorio.Pagination.Window.{GoesOn, shows, IsShown, page_window-GoesOn}

windows :
    (page_window 5 10
      ≡ number 1 ∷ ellipsis ∷ number 4 ∷ number 5 ∷ number 6 ∷ ellipsis ∷ number 10 ∷ [])
    × (page_window 1 10 ≡ number 1 ∷ number 2 ∷ ellipsis ∷ number 10 ∷ [])
    × (page_window 2 3 ≡ number 1 ∷ number 2 ∷ number 3 ∷ [])
unfolding page_window page_numbers add_once filter_by insert_number sort_numbers spaced
windows = (refl, refl, refl)

page_window-GoesOn_example :
    GoesOn 10 0 (page_window 5 10)
    × ((p : ℕ) → (shows p (page_window 5 10) ≡ true) ↔ IsShown 5 10 p)
page_window-GoesOn_example = page_window-GoesOn 5 10 (omega arith)
