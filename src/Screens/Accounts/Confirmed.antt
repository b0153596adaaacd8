-- ===== src/Screens/Accounts/Confirmed.antt =====
-- When a forgotten password is changed: behind a reset that was started, with a code of six digits.
use mentorio.Prelude.{true, Option, none, some, List, [], ◌∷◌, ◌≡◌, ◌≢◌, refl, inl, inr, Bool-cases}
use mentorio.Prelude.Text.{Text, same, same_iff}
use mentorio.Client.{Error, Outcome, ok, throw}
use mentorio.Screens.{Message}
use mentorio.Screens.Numbers.{trim}
use mentorio.Screens.Accounts.Forgotten.{
  ResetPage, ResetErrors, done, ConfirmCall, handle_confirm, after_confirm, confirm_checked,
  confirm_failed, no_reset_errors, check_code, check_password, is_six_digits,
}

-- The checks of the forgotten password.
check_code-none : (code : Text) → check_code code ≡ none → is_six_digits code ≡ true
unfolding check_code
check_code-none code h = elim (Bool-cases (is_six_digits code)) [
  | inl six ↦ six
  | inr other ↦ cc (rw other at h)
]

check_password-none :
    (password confirm : Text)
    → check_password password confirm ≡ none
    → (password ≢ []) × (password ≡ confirm)
unfolding check_password
check_password-none [] confirm h = cc
check_password-none (c ∷ s) confirm h = elim (Bool-cases (same (c ∷ s) confirm)) [
  | inl repeated ↦ (λ e. cc, (same_iff (c ∷ s) confirm).0 repeated)
  | inr mismatch ↦ cc (rw mismatch at h)
]

-- A confirmation is for the reset that was started, with six digits, and with a password that is
-- repeated.
abbrev pub IsSafeConfirm : ResetPage → ConfirmCall → Type 0
IsSafeConfirm p c =
    (p.reset ≡ some c.token)
    × (is_six_digits p.code ≡ true)
    × (c.code ≡ trim p.code)
    × (c.password ≢ [])
    × (c.password ≡ p.confirm)

-- What a confirmation does: it makes no call and stays, or makes a safe one, and the page is done
-- exactly if that succeeded.
pub data Confirmed (answer : ConfirmCall → Outcome (Unit {0})) (p : ResetPage)
    : List ConfirmCall → ResetPage → Type 0 where
  refused : (errors : ResetErrors) → Confirmed answer p [] (record p { errors = errors })
  accepted :
      (c : ConfirmCall)
      → IsSafeConfirm p c
      → answer c ≡ ok tt
      → Confirmed answer p (c ∷ []) (record p { step = done; errors = no_reset_errors })
  rejected :
      (c : ConfirmCall) (e : Error)
      → IsSafeConfirm p c
      → answer c ≡ throw e
      → Confirmed answer p (c ∷ []) (record p { errors = confirm_failed e })

after_confirm-Confirmed :
    (answer : ConfirmCall → Outcome (Unit {0})) (p : ResetPage) (c : ConfirmCall)
    (o : Outcome (Unit {0}))
    → answer c ≡ o
    → IsSafeConfirm p c
    → Confirmed answer p (c ∷ []) (after_confirm o p)
unfolding after_confirm
after_confirm-Confirmed answer p c (ok tt) e safe = accepted c safe e
after_confirm-Confirmed answer p c (throw e') e safe = rejected c e' safe e

confirm_checked-Confirmed :
    (answer : ConfirmCall → Outcome (Unit {0})) (p : ResetPage) (reset : Option Text)
    (wrong_code wrong_password : Option Message)
    → p.reset ≡ reset
    → check_code p.code ≡ wrong_code
    → check_password p.password p.confirm ≡ wrong_password
    → let after = confirm_checked answer reset wrong_code wrong_password p in
      Confirmed answer p after.0 after.1
unfolding confirm_checked
confirm_checked-Confirmed answer p none e f r h k = refused p.errors
confirm_checked-Confirmed answer p (some token) (some e) f r h k = refused _
confirm_checked-Confirmed answer p (some token) none (some f) r h k = refused _
confirm_checked-Confirmed answer p (some token) none none r h k =
    let (given_new, repeated) = check_password-none p.password p.confirm k in
    after_confirm-Confirmed answer p _ _ refl
      (r, check_code-none p.code h, refl, given_new, repeated)

-- Confirming a forgotten password makes at most one call, and none unless the reset was started,
-- the code has six digits and the password is entered twice alike. The page goes to its last step
-- if that call succeeded, and otherwise changes nothing but its errors.
pub handle_confirm-Confirmed :
    (answer : ConfirmCall → Outcome (Unit {0})) (p : ResetPage)
    → Confirmed answer p (handle_confirm answer p).0 (handle_confirm answer p).1
unfolding handle_confirm
handle_confirm-Confirmed answer p = confirm_checked-Confirmed answer p _ _ _ refl refl refl
