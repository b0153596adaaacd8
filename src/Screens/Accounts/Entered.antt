-- ===== src/Screens/Accounts/Entered.antt =====
-- Where signing in leads, and what it makes of the language.
use mathlib.Core.Path.{subst}
use mathlib.Core.Option.{some-injective}
use mentorio.Prelude.{
  not, Bool, true, false, ◌||◌, Option, none, some, List, [], ◌∷◌, ◌++◌, String, if◌then◌else◌, any,
  ◌≡◌, ◌⊎◌, refl, sym, ap, ◌∙◌, inl, inr, arith, Option-cases, Bool-cases, length,
}
use mentorio.Prelude.Text.{Text, codes, starts_with}
use mentorio.Prelude.Dict.{get}
use mentorio.Access.{Request, next, proxy, has_session, home_of}
use mentorio.Access.Portals.{
  Role, slug, Portal, platform, center, teaching, learning, portal_of, home, portal_at, segment,
  IsInherited, home_of-cases, proxy-eq-next_iff,
}
use mentorio.Client.{Outcome, ok, throw}
use mentorio.Screens.Numbers.{trim}
use mentorio.Screens.Accounts.{
  StoredUser, Browser, set_user, enter, after_login, handle_login, is_empty, has_locale,
  locale_cookie, is_locale, seed_locale_cookie_if_unset,
}

-- The page that the user is to see first.
abbrev pub first_page : StoredUser → Text → Text
first_page user portal = if user.must_change_password then codes "/change-password" else portal

enter_lem :
    (user : StoredUser) (portal : Text) (b : Browser)
    → ((enter user portal b).visited ≡ first_page user portal ∷ b.visited)
      × ((enter user portal b).user ≡ some user)
unfolding enter seed_locale_cookie_if_unset set_user
enter_lem user portal b = ground arith

-- What a login does to the browser: nothing, or it enters.
abbrev EntersOr : Outcome StoredUser → Browser → Browser → Type 0
EntersOr answer b b' =
    (b' ≡ b)
    ⊎ ((user : StoredUser) × (portal : Text) × (answer ≡ ok user)
        × (home_of user.role ≡ some portal)
        × (b' ≡ enter user portal b))

after_login-EntersOr :
    (answer : Outcome StoredUser) (b : Browser) → EntersOr answer b (after_login answer b).1
unfolding after_login
after_login-EntersOr (throw e) b = inl refl
after_login-EntersOr (ok user) b = elim (Option-cases (home_of user.role)) [
  | inl homeless ↦ inl (rw (homeless, after_login) refl)
  | inr (portal, found) ↦ inr (user, portal, refl, found, rw (found, after_login) refl)
]

-- The home of a role opens to it, and so does the password page.
tail_of :
    (ρ : Role)
    → (s : Text) × (home (portal_of ρ) ≡ b'/' ∷ s) × (portal_of ρ ≡ portal_at (segment s))
tail_of ρ = by_portal (portal_of ρ)
  where
    by_portal : (p : Portal) → (s : Text) × (home p ≡ b'/' ∷ s) × (p ≡ portal_at (segment s))
    by_portal platform = (codes "super-admin", refl, refl)
    by_portal center = ([], refl, refl)
    by_portal teaching = (codes "teacher", refl, refl)
    by_portal learning = (codes "student", refl, refl)

-- The user's role, if there is one, is no key of `Object.prototype`.
abbrev pub HasPlainRole : StoredUser → Type 0
HasPlainRole user = (role : String) → user.role ≡ some role → ¬ IsInherited role

home_of-Role :
    (role : Option String) (portal : Text)
    → ((r : String) → role ≡ some r → ¬ IsInherited r)
    → home_of role ≡ some portal
    → (ρ : Role) × (role ≡ some (slug ρ)) × (portal ≡ home (portal_of ρ))
unfolding home_of
home_of-Role none portal plain found = cc
home_of-Role (some role) portal plain found = elim (home_of-cases role) [
  | inl (ρ, e, at_home) ↦ (ρ, ap some (sym e), some-injective _ _ (sym found ∙ at_home))
  | inr (inl (taken, _, _)) ↦ absurd (plain role refl taken)
  | inr (inr (_, homeless)) ↦ cc (found, homeless)
]

-- A request for the first page passes the guard, whose role cookie is the user's.
first_page-proxy :
    (user : StoredUser) (portal : Text) (r : Request)
    → HasPlainRole user
    → home_of user.role ≡ some portal
    → r.pathname ≡ first_page user portal
    → has_session r ≡ true
    → get "user_role" r.cookies ≡ user.role
    → proxy r ≡ next
first_page-proxy user portal r plain found at_page session named =
    let (ρ, role, its_portal) = home_of-Role user.role portal plain found in
    let (s, at_home, own) = tail_of ρ in
    elim (Bool-cases user.must_change_password) [
      | inl first ↦
          (proxy-eq-next_iff r (codes "change-password") (rw first at at_page)).1
            (inr (inl (session, (ρ, named ∙ role, inl refl))))
      | inr ready ↦
          (proxy-eq-next_iff r s ((rw ready at at_page) ∙ its_portal ∙ at_home)).1
            (inr (inl (session, (ρ, named ∙ role, inr own))))
    ]

handle_login-EntersOr :
    (login_request : Text → Text → Outcome StoredUser) (login password : Text) (b : Browser)
    → EntersOr
        (login_request (trim login) password)
        b
        (handle_login login_request login password b).browser
unfolding handle_login
handle_login-EntersOr login_request login password b =
    elim (Bool-cases (is_empty (trim login) || is_empty password)) [
      | inl refused ↦ rw refused (inl refl)
      | inr complete ↦ rw complete (after_login-EntersOr (login_request (trim login) password) b)
    ]

-- The page after a login opens: a request for the page that the login page goes to passes the guard
-- of the pages, if it has a session, its role cookie holds the role of the user in the store, and
-- that role is no key of `Object.prototype`.
pub handle_login-proxy :
    (login_request : Text → Text → Outcome StoredUser) (login password to : Text) (b : Browser)
    (user : StoredUser) (r : Request)
    → let page = handle_login login_request login password b in
      HasPlainRole user
      → page.browser.visited ≡ to ∷ b.visited
      → page.browser.user ≡ some user
      → r.pathname ≡ to
      → has_session r ≡ true
      → get "user_role" r.cookies ≡ user.role
      → proxy r ≡ next
handle_login-proxy login_request login password to b user r plain gone signed_in at_page session
      named =
    elim (handle_login-EntersOr login_request login password b) [
      | inl same ↦
          let stays = ap (λ (b' : Browser). length b'.visited) same in
          let goes = ap length gone in absurd (omega arith)
      | inr (user', portal, answered, found, entered) ↦
          let (visits, stores) = enter_lem user' portal b in
          let goes = sym gone ∙ ap (λ (b' : Browser). b'.visited) entered ∙ visits in
          let first : to ≡ first_page user' portal = cc in
          let same =
            some-injective _ _ (sym signed_in ∙ ap (λ (b' : Browser). b'.user) entered ∙ stores) in
          first_page-proxy user' portal r (subst HasPlainRole same plain) found (at_page ∙ first)
            session (named ∙ ap (λ (u : StoredUser). u.role) same)
    ]

any-append_last {ℓ} :
    {A : Type ℓ} (p : A → Bool) (xs : List A) (y : A) → p y ≡ true → any p (xs ++ y ∷ []) ≡ true
any-append_last p [] y h = ground arith
any-append_last p (x ∷ xs) y h = ground (arith, any-append_last p xs y h)

starts_with-append : (p s : Text) → starts_with (p ++ s) p ≡ true
starts_with-append [] s = refl
starts_with-append (c ∷ p) s = ground (arith, starts_with-append p s)

has_locale-append :
    (cookies : List Text) (value : Text)
    → has_locale (cookies ++ (locale_cookie ++ value) ∷ []) ≡ true
unfolding has_locale
has_locale-append cookies value =
    any-append_last (λ c. starts_with c locale_cookie) cookies (locale_cookie ++ value)
      (starts_with-append locale_cookie value)

seed_set :
    (language : String) (b : Browser)
    → has_locale b.cookies ≡ true
    → seed_locale_cookie_if_unset language b ≡ (false, b)
unfolding seed_locale_cookie_if_unset
seed_set language b set = rw set refl

seed_unset :
    (language : String) (b : Browser)
    → has_locale b.cookies ≡ false
    → (has_locale (seed_locale_cookie_if_unset language b).1.cookies ≡ true)
      × ((seed_locale_cookie_if_unset language b).0 ≡ true)
unfolding seed_locale_cookie_if_unset
seed_unset language b unset =
    rw unset
      (has_locale-append b.cookies (codes (if is_locale language then language else "uz")), refl)

-- After a login has seeded the locale cookie there is one. The cookie is written exactly when there
-- was none, and a later login, whatever its language, writes none and changes nothing.
pub seed_locale_cookie_if_unset-again :
    (language later : String) (b : Browser)
    → let seeded = seed_locale_cookie_if_unset language b in
      (has_locale seeded.1.cookies ≡ true)
      × (seeded.0 ≡ not (has_locale b.cookies))
      × (seed_locale_cookie_if_unset later seeded.1 ≡ (false, seeded.1))
seed_locale_cookie_if_unset-again language later b = elim (Bool-cases (has_locale b.cookies)) [
  | inl set ↦
      let kept = seed_set language b set in
      let still : has_locale (seed_locale_cookie_if_unset language b).1.cookies ≡ true =
        rw kept set in
      (still, rw (kept, set) refl, seed_set later _ still)
  | inr unset ↦
      let (now, wrote) = seed_unset language b unset in
      (now, rw (wrote, unset) refl, seed_set later _ now)
]
