-- ===== src/Access.antt =====
-- frontend/proxy.ts with the portal map of frontend/lib/portals.ts: which page requests pass, and
-- where the others are sent.
pub mod Portals
pub mod Redirects
pub mod Matcher
mod Tests
use mentorio.Prelude.{
  ℕ, String, Bool, true, false, not, ◌&&◌, ◌||◌, Option, none, some, List, [], ◌∷◌, ◌++◌,
  if◌then◌else◌, str_eq, any, ◌==◌,
}
use mentorio.Prelude.Text.{Text, codes, same, starts_with}
use mentorio.Prelude.Dict.{Dict, get}

-- The own keys of `ROLE_PORTAL_MAP`.
abbrev pub role_portal_map : Dict Text
role_portal_map =
    ("super_admin", codes "/super-admin")
    ∷ ("center_admin", codes "/")
    ∷ ("admin", codes "/")
    ∷ ("teacher", codes "/teacher")
    ∷ ("student", codes "/student")
    ∷ []

-- The keys that a plain object has from `Object.prototype`, none of which holds a falsy value.
abbrev pub inherited_keys : List String
inherited_keys =
    "constructor" ∷ "toString" ∷ "toLocaleString" ∷ "valueOf" ∷ "hasOwnProperty" ∷ "isPrototypeOf"
    ∷ "propertyIsEnumerable" ∷ "__proto__" ∷ "__defineGetter__" ∷ "__defineSetter__"
    ∷ "__lookupGetter__" ∷ "__lookupSetter__" ∷ []

abbrev pub public_paths : List Text
public_paths = codes "/login" ∷ codes "/forgot-password" ∷ []

abbrev pub any_role_paths : List Text
any_role_paths = codes "/change-password" ∷ []

pub record PortalGuard : Type 0 where
  pub prefix : Text
  pub roles : List String

abbrev pub portal_guards : List PortalGuard
portal_guards =
    record { prefix = codes "/super-admin"; roles = "super_admin" ∷ [] }
    ∷ record { prefix = codes "/teacher"; roles = "teacher" ∷ [] }
    ∷ record { prefix = codes "/student"; roles = "student" ∷ [] }
    ∷ []

abbrev pub admin_roles : List String
admin_roles = "center_admin" ∷ "admin" ∷ []

abbrev pub auth_cookies : List String
auth_cookies = "access_token" ∷ "refresh_token" ∷ "user_role" ∷ []

-- The parts of a `NextRequest` that the guard reads.
pub record Request : Type 0 where
  pub pathname : Text
  pub cookies : Dict String

-- `redirect to gone`: a redirection to the path `to`, which deletes the cookies `gone`.
pub data Response : Type 0 where
  next : Response
  redirect : Text → List String → Response

unfoldable pub is_under_prefix : Text → Text → Bool
is_under_prefix pathname prefix = same pathname prefix || starts_with pathname (prefix ++ codes "/")

-- `cookies.has(name)`
unfoldable pub has : String → Dict String → Bool
unfolding get
has name cookies = elim (get name cookies) [ none ↦ false | some v ↦ true ]

-- `includes`
abbrev pub includes : List String → String → Bool
includes names name = any (λ n. str_eq n name) names

-- `PORTAL_GUARDS.find`
unfoldable pub find_guard : List PortalGuard → Text → Option PortalGuard
find_guard [] pathname = none
find_guard (g ∷ gs) pathname =
    if is_under_prefix pathname g.prefix then some g else find_guard gs pathname

-- The names that `redirectToLogin` deletes.
unfoldable pub stale : List String → Dict String → List String
unfolding has
stale [] cookies = []
stale (name ∷ names) cookies =
    let rest = stale names cookies in if has name cookies then name ∷ rest else rest

unfoldable pub redirect_to_login : Request → Response
unfolding stale
redirect_to_login r = redirect (codes "/login") (stale auth_cookies r.cookies)

-- A built-in function of the name as the text that it is in a URL's path.
abbrev built_in : String → Text
built_in name = codes "function%20" ++ (codes name ++ codes "()%20%7B%20[native%20code]%20%7D")

-- What `ROLE_PORTAL_MAP` has from its prototype under a key, as its text in a URL.
unfoldable pub inherited_text : String → Text
inherited_text key =
    if str_eq key "constructor"
    then built_in "Object"
    else if str_eq key "__proto__"
    then codes "[object%20Object]"
    else built_in key

unfoldable pub role_home : String → Option Text
unfolding get
role_home role = elim (get role role_portal_map) [
  | some portal ↦ some portal
  | none ↦ if includes inherited_keys role then some (inherited_text role) else none
]

-- `role ? ROLE_PORTAL_MAP[role] : undefined`, for the value of the role cookie.
unfoldable pub home_of : Option String → Option Text
home_of none = none
home_of (some role) = if str_eq role "" then none else role_home role

-- A path up to its last slash.
unfoldable pub folder : Text → Text
folder [] = []
folder (c ∷ s) = let rest = folder s in if c == b'/' || any (λ d. d == b'/') s then c ∷ rest else []

-- The path of `new URL(to, base)`, for a path `to` that is rooted, or a name with no slash.
unfoldable pub resolve : Text → Text → Text
resolve base to = if starts_with to (codes "/") then to else folder base ++ to

unfoldable pub is_allowed : Text → String → Bool
is_allowed pathname role = elim (find_guard portal_guards pathname) [
  | none ↦ includes admin_roles role
  | some guard ↦ includes guard.roles role
]

-- `proxy`, once the request has a role with a home.
unfoldable pub admit : Request → String → Text → Response
admit r role home =
    if any (is_under_prefix r.pathname) any_role_paths
    then next
    else if is_allowed r.pathname role
    then next
    else redirect (resolve r.pathname home) []

unfoldable pub has_session : Request → Bool
unfolding has
has_session r = has "access_token" r.cookies || has "refresh_token" r.cookies

unfoldable pub is_public : Text → Bool
is_public pathname = any (is_under_prefix pathname) public_paths

unfoldable pub proxy : Request → Response
proxy r =
    if is_public r.pathname
    then next
    else if not (has_session r)
    then redirect_to_login r
    else elim (get "user_role" r.cookies) [
      | none ↦ redirect_to_login r
      | some role ↦ elim (home_of (some role)) [
        | none ↦ redirect_to_login r
        | some home ↦ admit r role home
      ]
    ]

-- `config.matcher`, "/((?!_next/static|_next/image|favicon.ico|api|.*\\..*$).*)", on a path with no
-- line break: the paths that the guard sees at all.
abbrev pub has_dot : Text → Bool
has_dot s = any (λ c. c == b'.') s

-- What follows the prefix `p`.
abbrev pub after : Text → Text → Option Text
after [] s = some s
after (d ∷ p) [] = none
after (d ∷ p) (c ∷ s) = if c == d then after p s else none

-- `favicon.ico`, where the point stands for any character.
unfoldable pub is_favicon : Text → Bool
is_favicon s = elim (after (codes "favicon") s) [
  | none ↦ false
  | some [] ↦ false
  | some (c ∷ rest) ↦ starts_with rest (codes "ico")
]

-- `_next/static|_next/image|favicon.ico|api`
unfoldable pub is_reserved : Text → Bool
is_reserved s =
    starts_with s (codes "_next/static")
    || (starts_with s (codes "_next/image") || (is_favicon s || starts_with s (codes "api")))

unfoldable pub is_guarded : Text → Bool
is_guarded [] = false
is_guarded (c ∷ s) = c == b'/' && not (is_reserved s || has_dot s)

-- What a request meets: the guard runs on the paths of the matcher alone.
unfoldable pub handle : Request → Response
handle r = if is_guarded r.pathname then proxy r else next
