-- ===== src/Stores/Tests.antt =====
-- Two toasts, of which the first is dismissed by its timer, and a store of entities.
use mentorio.Prelude.{none, List, [], ◌∷◌, ◌≡◌, refl, arith}
use mentorio.Prelude.Dict.{get}
use mentorio.Json.{str}
use mentorio.Prelude.Text.{Text, codes}
use mentorio.Stores.Entities.{Entity}
use mentorio.Stores.Entities.Refined.{Op, add, update, soft_delete, view, run, replay, run-replay}
use mentorio.Stores.Toasts.{
  Toast, Timer, ToastState, success, error, without, dismiss, show, Reach, start, next, shown,
  fired, passed, no_toasts,
}
use mentorio.Stores.Toasts.Timed.{IsTimed, Reach-IsTimed}

abbrev saved : Toast
saved = record { id = 7; message = codes "Saved"; variant = success }

abbrev failed : Toast
failed = record { id = 8; message = codes "No network"; variant = error }

abbrev first_timer : Timer
first_timer = record { due = 3500; target = 7 }

abbrev second_timer : Timer
second_timer = record { due = 4500; target = 8 }

abbrev both : ToastState
both = record { toasts = saved ∷ failed ∷ []; timers = first_timer ∷ second_timer ∷ [] }

abbrev one_left : ToastState
one_left = record { toasts = failed ∷ []; timers = second_timer ∷ [] }

reach_both : Reach 4000 both
unfolding show
reach_both =
    next
      (next
        (next (next (start 0) (shown 0 7 (codes "Saved") success no_toasts))
          (passed 0 1000 _ (omega arith)))
        (shown 1000 8 (codes "No network") error _))
      (passed 1000 4000 _ (omega arith))

reach_one_left : Reach 4000 one_left
unfolding without dismiss
reach_one_left =
    next reach_both
      (fired 4000 (saved ∷ failed ∷ []) [] (second_timer ∷ []) first_timer (omega arith))

Reach-IsTimed_example : IsTimed 4000 one_left
Reach-IsTimed_example = Reach-IsTimed reach_one_left

abbrev room : Entity
room = ("name", str (codes "Room 1")) ∷ []

-- A room is added, renamed and deleted.
abbrev room_ops : List (Text × Op)
room_ops =
    (codes "09:00", add (codes "r1") room)
    ∷ (codes "09:05", update (codes "r1") (("name", str (codes "Room 2")) ∷ []))
    ∷ (codes "09:10", soft_delete (codes "r1"))
    ∷ []

name_keeps_id : get "id" (("name", str (codes "Room 2")) ∷ []) ≡ none
unfolding get
name_keeps_id = refl

run-replay_example : view (run room_ops []) ≡ replay room_ops (view [])
run-replay_example = run-replay room_ops [] (tt, (name_keeps_id, (tt, tt)))
