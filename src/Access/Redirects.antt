-- ===== src/Access/Redirects.antt =====
-- Where frontend/proxy.ts sends a request that it refuses: never round in a circle, and to the login
-- page only with the session's cookies cleared.
use mathlib.Core.Path.{subst}
use mentorio.Prelude.{
  ◌≡◌, refl, sym, ap, ◌∙◌, ◌≢◌, inl, inr, String, true, false, none, some, List, [], ◌∷◌,
  if◌then◌else◌, arith, eq_iff, ◌≤◌, Bool-cases, str_eq, ◌++◌, length, length-append,
}
use mentorio.Prelude.Text.{Text, codes, starts_with}
use mentorio.Prelude.Dict.{Dict, get}
use mentorio.Access.{
  Request, next, redirect, includes, has, stale, auth_cookies, is_public, has_session, admit, proxy,
  redirect_to_login, is_under_prefix, folder, resolve, inherited_text,
}
use mentorio.Access.Portals.{
  Role, slug, Portal, platform, center, teaching, learning, portal_of, home, portal_at, segment,
  IsInherited, proxy-cases, proxy-eq-next_iff, proxy-public,
}

-- The cookies that are left when those of the list are deleted.
unfoldable pub delete_all {ℓ} : {V : Type ℓ} → List String → Dict V → Dict V
delete_all gone [] = []
delete_all gone ((k, v) ∷ m) =
    let rest = delete_all gone m in if includes gone k then rest else (k, v) ∷ rest

-- The request with which a browser follows a redirection.
abbrev pub follow : Text → List String → Request → Request
follow to gone r = record { pathname = to; cookies = delete_all gone r.cookies }

get-delete_all :
    (k : String) (gone : List String) (m : Dict String)
    → get k (delete_all gone m) ≡ (if includes gone k then none else get k m)
unfolding get delete_all
get-delete_all k gone [] = ground arith
get-delete_all k gone ((j, v) ∷ m) = ground (arith, eq_iff j k, get-delete_all k gone m)

has-delete_all :
    (k : String) (gone : List String) (m : Dict String)
    → has k (delete_all gone m) ≡ (if includes gone k then false else has k m)
unfolding has
has-delete_all k gone m = ground (arith, get-delete_all k gone m)

-- After `redirectToLogin` the browser holds none of the session's cookies.
stale-cleared :
    (m : Dict String)
    → (has "access_token" (delete_all (stale auth_cookies m) m) ≡ false)
      × (has "refresh_token" (delete_all (stale auth_cookies m) m) ≡ false)
      × (has "user_role" (delete_all (stale auth_cookies m) m) ≡ false)
unfolding stale
stale-cleared m = (
  ground (arith, has-delete_all "access_token" (stale auth_cookies m) m),
  ground (arith, has-delete_all "refresh_token" (stale auth_cookies m) m),
  ground (arith, has-delete_all "user_role" (stale auth_cookies m) m),
)

delete_none : (m : Dict String) → delete_all [] m ≡ m
unfolding delete_all
delete_none [] = refl
delete_none ((k, v) ∷ m) = ap (◌∷◌ (k, v)) (delete_none m)

home-ne-login : (p : Portal) → home p ≢ codes "/login"
home-ne-login platform = ground arith
home-ne-login center = ground arith
home-ne-login teaching = ground arith
home-ne-login learning = ground arith

-- The path behind the slash of a portal's home.
abbrev home_tail : Portal → Text
home_tail platform = codes "super-admin"
home_tail center = []
home_tail teaching = codes "teacher"
home_tail learning = codes "student"

home-eq : (p : Portal) → (home p ≡ b'/' ∷ home_tail p) × (portal_at (segment (home_tail p)) ≡ p)
home-eq platform = (refl, refl)
home-eq center = (refl, refl)
home-eq teaching = (refl, refl)
home-eq learning = (refl, refl)

admit-redirect :
    (r : Request) (role : String) (h to : Text) (gone : List String)
    → admit r role h ≡ redirect to gone
    → (to ≡ resolve r.pathname h) × (gone ≡ [])
unfolding admit
admit-redirect r role h to gone e = ground arith

resolve-home : (base : Text) (p : Portal) → resolve base (home p) ≡ home p
unfolding resolve
resolve-home base platform = refl
resolve-home base center = refl
resolve-home base teaching = refl
resolve-home base learning = refl

built_in-long : (name : Text) → 10 ≤ length (codes "function%20" ++ name)
built_in-long name = omega (arith, length-append (codes "function%20") name)

-- The text of a value of the prototype is no path, and longer than that of the login page.
inherited_text-lem :
    (role : String)
    → (starts_with (inherited_text role) (codes "/") ≡ false) × (10 ≤ length (inherited_text role))
unfolding inherited_text
inherited_text-lem role = elim (Bool-cases (str_eq role "constructor")) [
  | inl object ↦ rw object (refl, built_in-long (codes "Object()%20%7B%20[native%20code]%20%7D"))
  | inr other ↦ elim (Bool-cases (str_eq role "__proto__")) [
    | inl proto ↦ rw (other, proto) (refl, omega arith)
    | inr method ↦
        rw (other, method)
          (refl, built_in-long (codes role ++ codes "()%20%7B%20[native%20code]%20%7D"))
  ]
]

resolve-ne-login :
    (base : Text) (role : String) → resolve base (inherited_text role) ≢ codes "/login"
unfolding resolve
resolve-ne-login base role e =
    let (rootless, long) = inherited_text-lem role in
    let joined : folder base ++ inherited_text role ≡ codes "/login" = rw rootless at e in
    absurd
      (omega (arith, long, ap length joined, length-append (folder base) (inherited_text role)))

follow-home :
    (r : Request) (ρ : Role)
    → has_session r ≡ true
    → get "user_role" r.cookies ≡ some (slug ρ)
    → proxy (follow (home (portal_of ρ)) [] r) ≡ next
unfolding has_session
follow-home r ρ session named =
    let (at_home, its_portal) = home-eq (portal_of ρ) in
    rw (delete_none r.cookies) (
      (proxy-eq-next_iff _ (home_tail (portal_of ρ)) at_home).1
        (inr (inl (session, (ρ, named, inr (sym its_portal))))))

follow-login : (r : Request) (gone : List String) → proxy (follow (codes "/login") gone r) ≡ next
unfolding is_public is_under_prefix
follow-login r gone = proxy-public (follow (codes "/login") gone r) refl

redirect_to_login-eq :
    (r : Request) (to : Text) (gone : List String)
    → redirect_to_login r ≡ redirect to gone
    → (codes "/login" ≡ to) × (stale auth_cookies r.cookies ≡ gone)
unfolding redirect_to_login
redirect_to_login-eq r to gone e = ground arith

-- The role cookie of a request, if it has one, is no key of `Object.prototype`.
abbrev pub HasPlainRole : Request → Type 0
HasPlainRole r = (role : String) → get "user_role" r.cookies ≡ some role → ¬ IsInherited role

-- A redirection is followed by a request that passes, if the role cookie is no key of
-- `Object.prototype`: no page then sends the browser round in a circle.
pub proxy-follow :
    (r : Request) (to : Text) (gone : List String)
    → HasPlainRole r
    → proxy r ≡ redirect to gone
    → proxy (follow to gone r) ≡ next
proxy-follow r to gone plain sent = elim (proxy-cases r) [
  | inl (_, passed) ↦ cc
  | inr (inl (_, to_login)) ↦
      let (at_login, _) = redirect_to_login-eq r to gone (sym to_login ∙ sent) in
      subst (λ t. proxy (follow t gone r) ≡ next) at_login (follow-login r gone)
  | inr (inr (inl (_, session, (ρ, named, admitted)))) ↦
      let (at_home, none_gone) = admit-redirect r (slug ρ) _ to gone (sym admitted ∙ sent) in
      rw (at_home ∙ resolve-home r.pathname (portal_of ρ), none_gone)
        (follow-home r ρ session named)
  | inr (inr (inr (_, _, (role, found, taken, _, _)))) ↦ absurd (plain role found taken)
]

-- Whoever is sent to the login page arrives there with none of the cookies `access_token`,
-- `refresh_token` and `user_role`.
pub proxy-login-cleared :
    (r : Request) (gone : List String)
    → proxy r ≡ redirect (codes "/login") gone
    → (has "access_token" (follow (codes "/login") gone r).cookies ≡ false)
      × (has "refresh_token" (follow (codes "/login") gone r).cookies ≡ false)
      × (has "user_role" (follow (codes "/login") gone r).cookies ≡ false)
proxy-login-cleared r gone sent = elim (proxy-cases r) [
  | inl (_, passed) ↦ cc
  | inr (inl (_, to_login)) ↦
      let (_, cleared) = redirect_to_login-eq r (codes "/login") gone (sym to_login ∙ sent) in
      subst IsCleared cleared (stale-cleared r.cookies)
  | inr (inr (inl (_, session, (ρ, named, admitted)))) ↦ absurd (
      home-ne-login (portal_of ρ) (
        sym (
          (admit-redirect r (slug ρ) _ (codes "/login") gone (sym admitted ∙ sent)).0
          ∙ resolve-home r.pathname (portal_of ρ))))
  | inr (inr (inr (_, _, (role, _, _, _, admitted)))) ↦ absurd (
      resolve-ne-login r.pathname role
        (sym (admit-redirect r role _ (codes "/login") gone (sym admitted ∙ sent)).0))
]
  where
    IsCleared : List String → Type 0
    IsCleared g =
        (has "access_token" (delete_all g r.cookies) ≡ false)
        × (has "refresh_token" (delete_all g r.cookies) ≡ false)
        × (has "user_role" (delete_all g r.cookies) ≡ false)
