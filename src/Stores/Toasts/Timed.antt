-- ===== src/Stores/Toasts/Timed.antt =====
-- No toast of frontend/lib/store/toast-store.ts stays for good.
use mentorio.Prelude.{
  ℕ, ◌+◌, ◌≤◌, List, [], ◌∷◌, ◌++◌, ◌≡◌, refl, inl, inr, All, All-append, All-map, Any,
  Any-append_left, Any-append_last, arith, Bool-cases, ◌==◌, false,
}
use mentorio.Stores.Toasts.{
  Toast, Timer, ToastState, without, dismiss, show, Step, shown, dismissed, fired, passed, Reach,
  start, next,
}

-- Some timer dismisses the toast of this identifier.
abbrev pub HasTimer : List Timer → ℕ → Type 0
HasTimer timers id = Any (λ t. t.target ≡ id) timers

-- Every toast has a timer, and no timer is set for more than three and a half seconds.
pub record IsTimed (now : ℕ) (s : ToastState) : Type 0 where
  pub timed : All (λ t. HasTimer s.timers t.id) s.toasts
  pub soon : All (λ (t : Timer). t.due ≤ now + 3500) s.timers

without-All : (P : Toast → Type 0) (id : ℕ) (ts : List Toast) → All P ts → All P (without id ts)
unfolding without
without-All P id [] h = tt
without-All P id (t ∷ ts) (p, h) = elim (Bool-cases (t.id == id)) [
  | inl gone ↦ rw gone (without-All P id ts h)
  | inr kept ↦ rw kept (p, without-All P id ts h)
]

-- Another toast's timer is still set behind one that has fired.
HasTimer-other :
    (before after : List Timer) (t : Timer) (id : ℕ)
    → HasTimer (before ++ t ∷ after) id
    → (t.target == id) ≡ false
    → HasTimer (before ++ after) id
HasTimer-other [] after t id (inl e) other = absurd (ground arith)
HasTimer-other [] after t id (inr h) other = h
HasTimer-other (b ∷ before) after t id (inl e) other = inl e
HasTimer-other (b ∷ before) after t id (inr h) other =
    inr (HasTimer-other before after t id h other)

without-fired :
    (before after : List Timer) (t : Timer) (ts : List Toast)
    → All (λ u. HasTimer (before ++ t ∷ after) u.id) ts
    → All (λ u. HasTimer (before ++ after) u.id) (without t.target ts)
unfolding without
without-fired before after t [] h = tt
without-fired before after t (u ∷ ts) (p, h) = elim (Bool-cases (u.id == t.target)) [
  | inl gone ↦ rw gone (without-fired before after t ts h)
  | inr kept ↦
      rw kept
        (HasTimer-other before after t u.id p (ground arith), without-fired before after t ts h)
]

All-drop :
    (P : Timer → Type 0) (before after : List Timer) (t : Timer)
    → All P (before ++ t ∷ after)
    → All P (before ++ after)
All-drop P [] after t h = h.1
All-drop P (b ∷ before) after t h = (h.0, All-drop P before after t h.1)

Step-IsTimed :
    {now later : ℕ} {s t : ToastState} → Step now s later t → IsTimed now s → IsTimed later t
unfolding show dismiss
Step-IsTimed (shown now id message variant s) h = record {
  timed =
      All-append _ s.toasts _ (All-map _ _ (λ u k. Any-append_left _ s.timers _ k) s.toasts h.timed)
        (Any-append_last _ s.timers _ refl, tt);
  soon = All-append _ s.timers _ h.soon (omega arith, tt);
}
Step-IsTimed (dismissed now id s) h = record {
  timed = without-All _ id s.toasts h.timed;
  soon = h.soon;
}
Step-IsTimed (fired now toasts before after t due) h = record {
  timed = without-fired before after t toasts h.timed;
  soon = All-drop _ before after t h.soon;
}
Step-IsTimed (passed now later s le) h = record {
  timed = h.timed;
  soon = All-map _ _ (λ t k. omega arith) s.timers h.soon;
}

-- Whatever toasts are shown and dismissed, by the user or by their timers, and however late timers
-- fire: every toast that is shown has a timer set that will dismiss it, and every timer is due within
-- three and a half seconds from now.
pub Reach-IsTimed : {now : ℕ} {s : ToastState} → Reach now s → IsTimed now s
Reach-IsTimed (start now) = record { timed = tt; soon = tt }
Reach-IsTimed (next r step) = Step-IsTimed step (Reach-IsTimed r)
