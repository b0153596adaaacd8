-- ===== src/Screens/Accounts/Changed.antt =====
-- When a signed-in user changes the password: only to another one that was entered twice.
use mentorio.Prelude.{Option, none, some, [], ◌∷◌, All, ◌≡◌, ◌≢◌, refl, inl, inr, Bool-cases}
use mentorio.Prelude.Text.{Text, same, same_iff}
use mentorio.Client.{Outcome}
use mentorio.Screens.{Message}
use mentorio.Screens.Accounts.{StoredUser, Browser}
use mentorio.Screens.Accounts.Passwords.{
  ChangeErrors, ChangeCall, check_current, check_new, change_checked, handle_change,
}

-- The checks of the change-password page.
check_current-none : (current : Text) → check_current current ≡ none → current ≢ []
unfolding check_current
check_current-none [] h = cc
check_current-none (c ∷ s) h = λ e. cc

check_new-none :
    (current password confirm : Text)
    → check_new current password confirm ≡ none
    → (password ≢ []) × (password ≢ current) × (password ≡ confirm)
unfolding check_new
check_new-none current [] confirm h = cc
check_new-none current (c ∷ s) confirm h = elim (Bool-cases (same (c ∷ s) current)) [
  | inl equal ↦ cc (rw equal at h)
  | inr differs ↦ elim (Bool-cases (same (c ∷ s) confirm)) [
    | inl repeated ↦ (
      λ e. cc,
      λ e. cc (differs, (same_iff (c ∷ s) current).1 e),
      (same_iff (c ∷ s) confirm).0 repeated,
    )
    | inr mismatch ↦ cc (rw (differs, mismatch) at h)
  ]
]

-- A call of the page is for the signed-in user, with both passwords entered, the new one different
-- from the old and repeated.
abbrev pub IsSafeChange : Browser → Text → ChangeCall → Type 0
IsSafeChange b confirm c =
    (c.current ≢ [])
    × (c.next ≢ [])
    × (c.next ≢ c.current)
    × (c.next ≡ confirm)
    × ((user : StoredUser) × (b.user ≡ some user) × (c.user_id ≡ user.id))

change_checked-IsSafeChange :
    (answer : ChangeCall → Outcome (Unit {0})) (errors : ChangeErrors)
    (signed_in : Option StoredUser) (wrong_current wrong_new : Option Message)
    (current password confirm : Text) (b : Browser)
    → b.user ≡ signed_in
    → check_current current ≡ wrong_current
    → check_new current password confirm ≡ wrong_new
    → All
        (IsSafeChange b confirm)
        (change_checked answer errors signed_in wrong_current wrong_new current password b).calls
unfolding change_checked
change_checked-IsSafeChange answer errors none e f current password confirm b u h k = tt
change_checked-IsSafeChange answer errors (some user) (some e) f current password confirm b u h k =
    tt
change_checked-IsSafeChange answer errors (some user) none (some f) current password confirm b u h
      k =
    tt
change_checked-IsSafeChange answer errors (some user) none none current password confirm b u h k =
    let (given_new, differs, repeated) = check_new-none current password confirm k in
    ((check_current-none current h, given_new, differs, repeated, (user, u, refl)), tt)

-- Each call that the change-password page makes is for the signed-in user, with both passwords
-- entered, and the new one different from the temporary one and equal to its repetition.
pub handle_change-IsSafeChange :
    (answer : ChangeCall → Outcome (Unit {0})) (errors : ChangeErrors)
    (current password confirm : Text) (b : Browser)
    → All (IsSafeChange b confirm) (handle_change answer errors current password confirm b).calls
unfolding handle_change
handle_change-IsSafeChange answer errors current password confirm b =
    change_checked-IsSafeChange answer errors b.user _ _ current password confirm b refl refl refl
