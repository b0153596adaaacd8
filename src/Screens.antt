-- ===== src/Screens.antt =====
-- What the screens of frontend/app do when something is typed, saved or submitted: the calls that
-- they make, the state that they keep and the toasts that they show. How the calls come out is an
-- argument; rendering is not modelled.
pub mod Accounts
pub mod Attendance
pub mod Csv
pub mod Grading
pub mod Numbers
pub mod PlatformPayments
pub mod Results
mod AccountTests
mod Tests
use mentorio.Prelude.{ℕ, String, List, [], ◌∷◌, ◌≡◌, length}
use mentorio.Json.{Json}
use mentorio.Client.{Error, api_error, rejected, malformed, Outcome, ok, throw}

-- `t(key)`, `t(key, { failed, total })`, or the message of an `ApiError`.
pub data Message : Type 0 where
  key : String → Message
  counted : String → ℕ → ℕ → Message
  text : Json → Message

-- `toast.success(message)` or `toast.error(message)`.
pub data Notice : Type 0 where
  success : Message → Notice
  error : Message → Notice

-- `err instanceof ApiError ? err.message : t(fallback)`
abbrev pub message_or : String → Error → Message
message_or fallback rejected = key fallback
message_or fallback malformed = key fallback
message_or fallback (api_error e) = text e.message

-- The errors among the outcomes, in their order.
unfoldable pub failures {ℓ} : {A : Type ℓ} → List (Outcome A) → List Error
failures [] = []
failures (ok v ∷ outcomes) = failures outcomes
failures (throw e ∷ outcomes) = e ∷ failures outcomes
