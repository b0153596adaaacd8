-- ===== src/Access/Tests.antt =====
-- Runs of the guard, and the theorems about it at them.
use mathlib.Core.Path.{subst}
use mathlib.Core.Option.{some-injective}
use mentorio.Prelude.{sym, ◌≡◌, refl, ◌↔◌, inl, inr, String, false, [], ◌∷◌, Any}
use mentorio.Prelude.Text.{Text, codes}
use mentorio.Prelude.Dict.{Dict, get}
use mentorio.Access.{
  Request, next, redirect, has, is_allowed, find_guard, is_public, is_under_prefix, has_session,
  home_of, admit, proxy, redirect_to_login, handle, resolve, folder, inherited_text, role_home,
}
use mentorio.Access.Portals.{MayOpen, IsInherited, proxy-eq-next_iff}
use mentorio.Access.Redirects.{follow, HasPlainRole, proxy-follow, proxy-login-cleared}
use mentorio.Access.Matcher.{handle-eq-next_iff}

guard : Unit {0}
unfolding proxy admit role_home is_allowed find_guard is_public is_under_prefix has_session home_of
    redirect_to_login resolve
guard = tt

abbrev ask : Text → Dict String → Request
ask path cookies = record { pathname = path; cookies = cookies }

abbrev pupil : Dict String
pupil = ("access_token", "a") ∷ ("user_role", "student") ∷ []

abbrev partial_session : Dict String
partial_session = ("refresh_token", "r") ∷ ("theme", "dark") ∷ []

proxy_tests :
    (proxy (ask (codes "/students") pupil) ≡ redirect (codes "/student") [])
    × (proxy (ask (codes "/student/grades") pupil) ≡ next)
    × (proxy (ask (codes "/login") []) ≡ next)
    × (proxy (ask (codes "/change-password") pupil) ≡ next)
    × (proxy (ask (codes "/") partial_session) ≡ redirect (codes "/login") ("refresh_token" ∷ []))
unfolding guard
proxy_tests = (refl, refl, refl, refl, refl)

proxy-eq-next_iff_example :
    (proxy (ask (codes "/teacher/salary") pupil) ≡ next)
    ↔ MayOpen (ask (codes "/teacher/salary") pupil) (codes "teacher/salary")
proxy-eq-next_iff_example =
    proxy-eq-next_iff (ask (codes "/teacher/salary") pupil) (codes "teacher/salary") refl

pupil_role : HasPlainRole (ask (codes "/students") pupil)
unfolding get
pupil_role role found taken =
    absurd (student_plain (subst IsInherited (sym (some-injective _ _ found)) taken))
  where
    student_plain : ¬ IsInherited "student"
    student_plain e = cc

-- A role cookie of the prototype's: the password page opens, and the portals send it round.
abbrev inherited_role : Dict String
inherited_role = ("access_token", "a") ∷ ("user_role", "__proto__") ∷ []

inherited_tests :
    (proxy (ask (codes "/change-password") inherited_role) ≡ next)
    × (proxy (ask (codes "/students") inherited_role) ≡ redirect (codes "/[object%20Object]") [])
    × (proxy (ask (codes "/[object%20Object]") inherited_role)
        ≡ redirect (codes "/[object%20Object]") [])
unfolding guard folder inherited_text
inherited_tests = (refl, refl, refl)

proxy-follow_example : proxy (follow (codes "/student") [] (ask (codes "/students") pupil)) ≡ next
proxy-follow_example =
    proxy-follow (ask (codes "/students") pupil) (codes "/student") [] pupil_role proxy_tests.0

proxy-login-cleared_example :
    let r = follow (codes "/login") ("refresh_token" ∷ []) (ask (codes "/") partial_session) in
    (has "access_token" r.cookies ≡ false)
    × (has "refresh_token" r.cookies ≡ false)
    × (has "user_role" r.cookies ≡ false)
proxy-login-cleared_example =
    proxy-login-cleared (ask (codes "/") partial_session) ("refresh_token" ∷ []) proxy_tests.4

dotted : Any (λ c. c ≡ b'.') (codes "teacher/v1.2/salary")
dotted = inr (inr (inr (inr (inr (inr (inr (inr (inr (inr (inl refl))))))))))

handle-eq-next_iff_example :
    (handle (ask (codes "/teacher/salary") pupil) ≡ next)
    ↔ MayOpen (ask (codes "/teacher/salary") pupil) (codes "teacher/salary")
handle-eq-next_iff_example =
    handle-eq-next_iff (ask (codes "/teacher/salary") pupil) (codes "teacher/salary") refl refl
      (λ e. cc)
