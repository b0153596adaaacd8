-- ===== src/Access/Matcher.antt =====
-- The matcher of frontend/proxy.ts: which page requests meet the guard at all.
use mentorio.Prelude.{
  ℕ, ◌≡◌, refl, sym, ap, ◌∙◌, ◌≢◌, ◌⊎◌, ◌↔◌, inl, inr, Bool, true, false, ◌||◌, [], ◌∷◌, arith, Any,
}
use mentorio.Prelude.Text.{Text}
use mentorio.Access.{Request, next, proxy, handle, has_dot, is_favicon, is_reserved, is_guarded}
use mentorio.Access.Portals.{center, segment, portal_at, MayOpen, proxy-eq-next_iff}

has_dot_iff : (s : Text) → (has_dot s ≡ true) ↔ Any (λ c. c ≡ b'.') s
has_dot_iff [] = ground arith
has_dot_iff (c ∷ s) = ground (arith, has_dot_iff s)

or-true : (b : Bool) → (b || true) ≡ true
or-true true = refl
or-true false = refl

is_guarded-dot : (s : Text) → has_dot s ≡ true → is_guarded (b'/' ∷ s) ≡ false
unfolding is_guarded
is_guarded-dot s h = rw (h, or-true (is_reserved s))

handle-unguarded : (r : Request) → is_guarded r.pathname ≡ false → handle r ≡ next
unfolding handle
handle-unguarded r h = rw (h, handle)

handle-guarded : (r : Request) → is_guarded r.pathname ≡ true → handle r ≡ proxy r
unfolding handle
handle-guarded r h = rw (h, handle)

-- A dot anywhere in the path, not only in its last part, takes the request past the guard: it is
-- answered without a look at its cookies.
handle-dot :
    (r : Request) (s : Text) → r.pathname ≡ b'/' ∷ s → Any (λ c. c ≡ b'.') s → handle r ≡ next
handle-dot r s at_s dotted =
    handle-unguarded r (ap is_guarded at_s ∙ is_guarded-dot s ((has_dot_iff s).1 dotted))

-- The first letters of the named portals are none of those that the matcher leaves out.
is_reserved-head : (c : ℕ) (s : Text) → (c ≡ b's') ⊎ (c ≡ b't') → is_reserved (c ∷ s) ≡ false
unfolding is_reserved is_favicon
is_reserved-head c s (inl e) = rw e
is_reserved-head c s (inr e) = rw e

guarded_head :
    (c : ℕ) (s : Text)
    → (c ≡ b's') ⊎ (c ≡ b't')
    → has_dot (c ∷ s) ≡ false
    → is_guarded (b'/' ∷ c ∷ s) ≡ true
unfolding is_guarded
guarded_head c s e h = rw (is_reserved-head c s e, h)

portal_at-head : (c : ℕ) (s : Text) → portal_at (segment (c ∷ s)) ≢ center → (c ≡ b's') ⊎ (c ≡ b't')
portal_at-head c s ne = ground arith

is_guarded-portal :
    (s : Text) → has_dot s ≡ false → portal_at (segment s) ≢ center → is_guarded (b'/' ∷ s) ≡ true
is_guarded-portal [] h ne = absurd (ne refl)
is_guarded-portal (c ∷ s) h ne = guarded_head c s (portal_at-head c s ne) h

-- A page of the platform, teacher or student portal whose path has no dot is opened only as the
-- guard allows it: by a session whose role has that portal.
pub handle-eq-next_iff :
    (r : Request) (s : Text)
    → r.pathname ≡ b'/' ∷ s
    → has_dot s ≡ false
    → portal_at (segment s) ≢ center
    → (handle r ≡ next) ↔ MayOpen r s
handle-eq-next_iff r s at_s no_dot named =
    let same_answer = handle-guarded r (ap is_guarded at_s ∙ is_guarded-portal s no_dot named) in
    let (to, from) = proxy-eq-next_iff r s at_s in
    (λ passed. to (sym same_answer ∙ passed), λ may. same_answer ∙ from may)
