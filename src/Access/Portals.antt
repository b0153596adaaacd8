-- ===== src/Access/Portals.antt =====
-- The guard of frontend/proxy.ts against a description by roles and portals: a request passes when
-- its role's portal is the one that the path's first segment names.
use mathlib.Core.Path.{subst}
use mentorio.Prelude.{
  ◌≡◌, refl, sym, ap, ◌∙◌, ◌≢◌, ◌↔◌, ◌⊎◌, inl, inr, String, true, false, ◌||◌, none, some, [], ◌∷◌,
  ◌++◌, if◌then◌else◌, str_eq, ◌==◌, arith, eq_iff, All, Bool-cases, Option-cases,
}
use mentorio.Prelude.Text.{Text, codes, same, starts_with, same_iff}
use mentorio.Prelude.Dict.{get}
use mentorio.Access.{
  Request, next, is_under_prefix, is_public, has_session, home_of, is_allowed, find_guard, admit,
  proxy, redirect_to_login, includes, admin_roles, inherited_keys, inherited_text, role_home,
}

pub data Role : Type 0 where
  super_admin center_admin admin teacher student : Role

abbrev pub slug : Role → String
slug super_admin = "super_admin"
slug center_admin = "center_admin"
slug admin = "admin"
slug teacher = "teacher"
slug student = "student"

pub data Portal : Type 0 where
  platform center teaching learning : Portal

abbrev pub portal_of : Role → Portal
portal_of super_admin = platform
portal_of center_admin = center
portal_of admin = center
portal_of teacher = teaching
portal_of student = learning

abbrev pub home : Portal → Text
home platform = codes "/super-admin"
home center = codes "/"
home teaching = codes "/teacher"
home learning = codes "/student"

-- The part of a path up to its next slash.
abbrev pub segment : Text → Text
segment [] = []
segment (c ∷ s) = if c == b'/' then [] else c ∷ segment s

abbrev pub portal_at : Text → Portal
portal_at seg =
    if same seg (codes "super-admin")
    then platform
    else if same seg (codes "teacher")
    then teaching
    else if same seg (codes "student")
    then learning
    else center

-- A prefix of one segment matches a whole first segment, or nothing.
under_of_segment :
    (s seg : Text)
    → All (λ c. c ≢ b'/') seg
    → (same s seg || starts_with s (seg ++ codes "/")) ≡ same (segment s) seg
under_of_segment [] [] h = refl
under_of_segment [] (d ∷ seg) h = refl
under_of_segment (c ∷ s) [] h = ground arith
under_of_segment (c ∷ s) (d ∷ seg) (h, hs) = ground (arith, under_of_segment s seg hs)

is_under_prefix-segment :
    (s seg : Text)
    → All (λ c. c ≢ b'/') seg
    → is_under_prefix (b'/' ∷ s) (b'/' ∷ seg) ≡ same (segment s) seg
unfolding is_under_prefix
is_under_prefix-segment s seg h = under_of_segment s seg h

abbrev IsSegment : Text → Type 0
IsSegment seg = All (λ c. c ≢ b'/') seg

is_allowed-segment :
    (s : Text) (role : String)
    → is_allowed (b'/' ∷ s) role ≡ (
        if same (segment s) (codes "super-admin")
        then includes ("super_admin" ∷ []) role
        else if same (segment s) (codes "teacher")
        then includes ("teacher" ∷ []) role
        else if same (segment s) (codes "student")
        then includes ("student" ∷ []) role
        else includes admin_roles role)
unfolding is_allowed find_guard
is_allowed-segment s role = ground (
  arith,
  is_under_prefix-segment s (codes "super-admin") (omega arith),
  is_under_prefix-segment s (codes "teacher") (omega arith),
  is_under_prefix-segment s (codes "student") (omega arith),
)

is_allowed-slug :
    (s : Text) (ρ : Role)
    → (is_allowed (b'/' ∷ s) (slug ρ) ≡ true) ↔ (portal_of ρ ≡ portal_at (segment s))
is_allowed-slug s super_admin = rw (is_allowed-segment s (slug super_admin)) (ground arith)
is_allowed-slug s center_admin = rw (is_allowed-segment s (slug center_admin)) (ground arith)
is_allowed-slug s admin = rw (is_allowed-segment s (slug admin)) (ground arith)
is_allowed-slug s teacher = rw (is_allowed-segment s (slug teacher)) (ground arith)
is_allowed-slug s student = rw (is_allowed-segment s (slug student)) (ground arith)

pub is_public-segment :
    (s : Text)
    → (is_public (b'/' ∷ s) ≡ true)
      ↔ ((segment s ≡ codes "login") ⊎ (segment s ≡ codes "forgot-password"))
unfolding is_public
is_public-segment s =
    rw
      (
        is_under_prefix-segment s (codes "login") (omega arith),
        is_under_prefix-segment s (codes "forgot-password") (omega arith),
      )
      (ground (
        arith,
        same_iff (segment s) (codes "login"),
        same_iff (segment s) (codes "forgot-password"),
      ))

-- A value of the role cookie that the portal map has from its prototype alone.
abbrev pub IsInherited : String → Type 0
IsInherited role = includes inherited_keys role ≡ true

home_of-slug : (ρ : Role) → home_of (some (slug ρ)) ≡ some (home (portal_of ρ))
unfolding home_of role_home get
home_of-slug super_admin = refl
home_of-slug center_admin = refl
home_of-slug admin = refl
home_of-slug teacher = refl
home_of-slug student = refl

role_home-foreign :
    (role : String)
    → ((ρ : Role) → slug ρ ≢ role)
    → role_home role ≡ (if includes inherited_keys role then some (inherited_text role) else none)
unfolding role_home get
role_home-foreign role other = ground (
  arith,
  other super_admin,
  other center_admin,
  other admin,
  other teacher,
  other student,
  eq_iff "super_admin" role,
  eq_iff "center_admin" role,
  eq_iff "admin" role,
  eq_iff "teacher" role,
  eq_iff "student" role,
)

home_of-foreign :
    (role : String)
    → ((ρ : Role) → slug ρ ≢ role)
    → home_of (some role)
      ≡ (if includes inherited_keys role then some (inherited_text role) else none)
unfolding home_of
home_of-foreign role other = elim (Bool-cases (str_eq role "")) [
  | inl blank ↦
      let e : "" ≡ role = sym ((eq_iff role "").0 blank) in
      subst
        (λ r.
          home_of (some r) ≡ (if includes inherited_keys r then some (inherited_text r) else none))
        e refl
  | inr given ↦ rw given (role_home-foreign role other)
]

slug-cases : (role : String) → ((ρ : Role) × (slug ρ ≡ role)) ⊎ ((ρ : Role) → slug ρ ≢ role)
slug-cases role = elim (Bool-cases (str_eq "super_admin" role)) [
  | inl e ↦ inl (super_admin, (eq_iff _ _).0 e)
  | inr n₁ ↦ elim (Bool-cases (str_eq "center_admin" role)) [
    | inl e ↦ inl (center_admin, (eq_iff _ _).0 e)
    | inr n₂ ↦ elim (Bool-cases (str_eq "admin" role)) [
      | inl e ↦ inl (admin, (eq_iff _ _).0 e)
      | inr n₃ ↦ elim (Bool-cases (str_eq "teacher" role)) [
        | inl e ↦ inl (teacher, (eq_iff _ _).0 e)
        | inr n₄ ↦ elim (Bool-cases (str_eq "student" role)) [
          | inl e ↦ inl (student, (eq_iff _ _).0 e)
          | inr n₅ ↦ inr (elim [
            | super_admin ↦ differs _ _ n₁
            | center_admin ↦ differs _ _ n₂
            | admin ↦ differs _ _ n₃
            | teacher ↦ differs _ _ n₄
            | student ↦ differs _ _ n₅
          ])
        ]
      ]
    ]
  ]
]
  where
    differs : (a b : String) → str_eq a b ≡ false → a ≢ b
    differs a b n e = cc (n, (eq_iff a b).1 e)

-- A role cookie names a role, which has its portal's home, or is a key of the prototype, or has no
-- home.
pub home_of-cases :
    (role : String)
    → ((ρ : Role) × (slug ρ ≡ role) × (home_of (some role) ≡ some (home (portal_of ρ))))
      ⊎ ((IsInherited role)
          × (home_of (some role) ≡ some (inherited_text role))
          × ((ρ : Role) → slug ρ ≢ role))
      ⊎ ((includes inherited_keys role ≡ false) × (home_of (some role) ≡ none))
home_of-cases role = elim (slug-cases role) [
  | inl (ρ, e) ↦ inl (ρ, e, rw (← e) (home_of-slug ρ))
  | inr other ↦ inr (elim (Bool-cases (includes inherited_keys role)) [
    | inl taken ↦ inl (taken, (rw taken at (home_of-foreign role other)), other)
    | inr free ↦ inr (free, (rw free at (home_of-foreign role other)))
  ])
]

-- What the guard lets through: a public page; with a session and a role cookie that names a role,
-- the password page and the pages of that role's portal; and with a session and a role cookie that
-- is a key of the prototype, the password page.
abbrev pub MayOpen : Request → Text → Type 0
MayOpen r s =
    ((segment s ≡ codes "login") ⊎ (segment s ≡ codes "forgot-password"))
    ⊎ ((has_session r ≡ true)
        × ((ρ : Role) × (get "user_role" r.cookies ≡ some (slug ρ))
            × ((segment s ≡ codes "change-password") ⊎ (portal_of ρ ≡ portal_at (segment s)))))
    ⊎ ((has_session r ≡ true)
        × ((role : String) × (get "user_role" r.cookies ≡ some role)
            × (IsInherited role)
            × (segment s ≡ codes "change-password")))

pub admit-eq-next_iff :
    (r : Request) (s : Text) (ρ : Role) (h : Text)
    → r.pathname ≡ b'/' ∷ s
    → (admit r (slug ρ) h ≡ next)
      ↔ ((segment s ≡ codes "change-password") ⊎ (portal_of ρ ≡ portal_at (segment s)))
unfolding admit
admit-eq-next_iff r s ρ h at_s =
    rw (at_s, is_under_prefix-segment s (codes "change-password") (omega arith))
      (ground (arith, same_iff (segment s) (codes "change-password"), is_allowed-slug s ρ))

-- No portal is allowed to a role cookie that names no role.
is_allowed-foreign :
    (s : Text) (role : String) → ((ρ : Role) → slug ρ ≢ role) → is_allowed (b'/' ∷ s) role ≡ false
is_allowed-foreign s role other = rw (is_allowed-segment s role) (
    ground (
      arith,
      other super_admin,
      other center_admin,
      other admin,
      other teacher,
      other student,
      eq_iff "super_admin" role,
      eq_iff "center_admin" role,
      eq_iff "admin" role,
      eq_iff "teacher" role,
      eq_iff "student" role,
    ))

pub admit-foreign :
    (r : Request) (s : Text) (role : String) (h : Text)
    → r.pathname ≡ b'/' ∷ s
    → ((ρ : Role) → slug ρ ≢ role)
    → (admit r role h ≡ next) ↔ (segment s ≡ codes "change-password")
unfolding admit
admit-foreign r s role h at_s other =
    rw (at_s, is_under_prefix-segment s (codes "change-password") (omega arith))
      (ground
        (arith, same_iff (segment s) (codes "change-password"), is_allowed-foreign s role other))

pub redirect_to_login-ne-next : (r : Request) → redirect_to_login r ≢ next
unfolding redirect_to_login
redirect_to_login-ne-next r e = cc

-- With a session and a role, the answer is that of `admit`.
pub proxy-eq-admit :
    (r : Request) (ρ : Role)
    → is_public r.pathname ≡ false
    → has_session r ≡ true
    → get "user_role" r.cookies ≡ some (slug ρ)
    → proxy r ≡ admit r (slug ρ) (home (portal_of ρ))
unfolding proxy
proxy-eq-admit r ρ hidden session found = rw (hidden, session, found, home_of-slug ρ, proxy)

-- The guard's answers, one for each way that the request can fail.
pub proxy-cases :
    (r : Request)
    → ((is_public r.pathname ≡ true) × (proxy r ≡ next))
      ⊎ ((is_public r.pathname ≡ false) × (proxy r ≡ redirect_to_login r))
      ⊎ ((is_public r.pathname ≡ false)
          × (has_session r ≡ true)
          × ((ρ : Role) × (get "user_role" r.cookies ≡ some (slug ρ))
              × (proxy r ≡ admit r (slug ρ) (home (portal_of ρ)))))
      ⊎ ((is_public r.pathname ≡ false)
          × (has_session r ≡ true)
          × ((role : String) × (get "user_role" r.cookies ≡ some role)
              × (IsInherited role)
              × ((ρ : Role) → slug ρ ≢ role)
              × (proxy r ≡ admit r role (inherited_text role))))
unfolding proxy
proxy-cases r = elim (Bool-cases (is_public r.pathname)) [
  | inl public ↦ inl (public, rw (public, proxy))
  | inr hidden ↦ elim (Bool-cases (has_session r)) [
    | inr no_session ↦ inr (inl (hidden, rw (hidden, no_session, proxy)))
    | inl session ↦ elim (Option-cases (get "user_role" r.cookies)) [
      | inl no_role ↦ inr (inl (hidden, rw (hidden, session, no_role, proxy)))
      | inr (role, found) ↦ elim (home_of-cases role) [
        | inl (ρ, e, at_home) ↦
            let named : get "user_role" r.cookies ≡ some (slug ρ) = found ∙ ap some (sym e) in
            inr (inr (inl (hidden, session, (ρ, named, proxy-eq-admit r ρ hidden session named))))
        | inr (inl (taken, at_home, other)) ↦ inr (
            inr (
              inr (
                hidden,
                session,
                (role, found, taken, other, rw (hidden, session, found, at_home, proxy)),
              )))
        | inr (inr (_, homeless)) ↦ inr (inl (hidden, rw (hidden, session, found, homeless, proxy)))
      ]
    ]
  ]
]

proxy-MayOpen : (r : Request) (s : Text) → r.pathname ≡ b'/' ∷ s → proxy r ≡ next → MayOpen r s
proxy-MayOpen r s at_s passed = elim (proxy-cases r) [
  | inl (public, _) ↦ inl ((is_public-segment s).0 (rw at_s at public))
  | inr (inl (_, to_login)) ↦ absurd (redirect_to_login-ne-next r (sym to_login ∙ passed))
  | inr (inr (inl (_, session, (ρ, named, admitted)))) ↦
      inr (inl (session, (ρ, named, (admit-eq-next_iff r s ρ _ at_s).0 (sym admitted ∙ passed))))
  | inr (inr (inr (_, session, (role, found, taken, other, admitted)))) ↦ inr (
      inr (
        session,
        (role, found, taken, (admit-foreign r s role _ at_s other).0 (sym admitted ∙ passed)),
      ))
]

pub proxy-public : (r : Request) → is_public r.pathname ≡ true → proxy r ≡ next
unfolding proxy
proxy-public r public = rw (public, proxy)

-- The password page opens to a session whose role cookie has any home.
proxy-password :
    (r : Request) (s : Text) (role : String)
    → r.pathname ≡ b'/' ∷ s
    → is_public r.pathname ≡ false
    → has_session r ≡ true
    → get "user_role" r.cookies ≡ some role
    → IsInherited role
    → segment s ≡ codes "change-password"
    → proxy r ≡ next
unfolding proxy
proxy-password r s role at_s hidden session found taken at_page = elim (home_of-cases role) [
  | inl (ρ, e, at_home) ↦
      let named : get "user_role" r.cookies ≡ some (slug ρ) = found ∙ ap some (sym e) in
      proxy-eq-admit r ρ hidden session named ∙ (admit-eq-next_iff r s ρ _ at_s).1 (inl at_page)
  | inr (inl (_, at_home, other)) ↦
      rw (hidden, session, found, at_home, proxy)
        ((admit-foreign r s role (inherited_text role) at_s other).1 at_page)
  | inr (inr (free, _)) ↦ cc (taken, free)
]

MayOpen-proxy : (r : Request) (s : Text) → r.pathname ≡ b'/' ∷ s → MayOpen r s → proxy r ≡ next
MayOpen-proxy r s at_s (inl public) =
    proxy-public r (rw (← at_s) at ((is_public-segment s).1 public))
MayOpen-proxy r s at_s (inr (inl (session, (ρ, named, fits)))) =
    elim (Bool-cases (is_public r.pathname)) [
      | inl public ↦ proxy-public r public
      | inr hidden ↦
          proxy-eq-admit r ρ hidden session named ∙ (admit-eq-next_iff r s ρ _ at_s).1 fits
    ]
MayOpen-proxy r s at_s (inr (inr (session, (role, found, taken, at_page)))) =
    elim (Bool-cases (is_public r.pathname)) [
      | inl public ↦ proxy-public r public
      | inr hidden ↦ proxy-password r s role at_s hidden session found taken at_page
    ]

-- A request passes the guard exactly when its page is public; or it has a session and a role cookie
-- that names a role, and its page is the password page or one of that role's portal; or it has a
-- session and a role cookie that is a key of `Object.prototype`, and its page is the password page.
pub proxy-eq-next_iff :
    (r : Request) (s : Text) → r.pathname ≡ b'/' ∷ s → (proxy r ≡ next) ↔ MayOpen r s
proxy-eq-next_iff r s at_s = (proxy-MayOpen r s at_s, MayOpen-proxy r s at_s)
