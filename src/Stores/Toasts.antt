-- ===== src/Stores/Toasts.antt =====
-- frontend/lib/store/toast-store.ts: the toasts that are shown, and the timers that dismiss them.
pub mod Timed
use mentorio.Prelude.{ℕ, ◌+◌, ◌≤◌, List, [], ◌∷◌, ◌++◌, String, ◌≡◌, if◌then◌else◌, ◌==◌}
use mentorio.Prelude.Text.{Text}

pub data ToastVariant : Type 0 where
  success error : ToastVariant

-- The identifiers are numbers, as the clock and the random part of the code's make them.
pub record Toast : Type 0 where
  pub id : ℕ
  pub message : Text
  pub variant : ToastVariant

-- A timer that is set: when it is due, in milliseconds, and the toast that it dismisses.
pub record Timer : Type 0 where
  pub due : ℕ
  pub target : ℕ

pub record ToastState : Type 0 where
  pub toasts : List Toast
  pub timers : List Timer

unfoldable pub without : ℕ → List Toast → List Toast
without id [] = []
without id (t ∷ toasts) = let rest = without id toasts in if t.id == id then rest else t ∷ rest

unfoldable pub dismiss : ℕ → ToastState → ToastState
dismiss id s = record s { toasts = without id s.toasts }

-- `id` is the new identifier, `now` the time of the clock.
unfoldable pub show : ℕ → ℕ → Text → ToastVariant → ToastState → ToastState
show now id message variant s = record {
  toasts = s.toasts ++ record { id = id; message = message; variant = variant } ∷ [];
  timers = s.timers ++ record { due = now + 3500; target = id } ∷ [];
}

-- What may happen next, with the time of the clock before and after it: a toast is shown, the user
-- dismisses one, a timer that is due fires, or time passes.
pub data Step : ℕ → ToastState → ℕ → ToastState → Type 0 where
  shown :
      (now id : ℕ) (message : Text) (variant : ToastVariant) (s : ToastState)
      → Step now s now (show now id message variant s)
  dismissed : (now id : ℕ) (s : ToastState) → Step now s now (dismiss id s)
  fired :
      (now : ℕ) (toasts : List Toast) (before after : List Timer) (t : Timer)
      → t.due ≤ now
      → Step now
          (record { toasts = toasts; timers = before ++ t ∷ after })
          now
          (dismiss t.target (record { toasts = toasts; timers = before ++ after }))
  passed : (now later : ℕ) (s : ToastState) → now ≤ later → Step now s later s

abbrev pub no_toasts : ToastState
no_toasts = record { toasts = []; timers = [] }

pub data Reach : ℕ → ToastState → Type 0 where
  start : (now : ℕ) → Reach now no_toasts
  next : {now later : ℕ} {s t : ToastState} → Reach now s → Step now s later t → Reach later t
