-- ===== src/Client/Renewal.antt =====
-- The 401 of an expired access token (frontend/lib/api/client.ts): unseen by the caller if the
-- refresh succeeds, and the way to the login page if it fails.
use mentorio.Prelude.{
  ◌≡◌, refl, ap, ◌∙◌, ◌≢◌, inl, inr, Bool, true, false, not, ◌&&◌, Option, some, List, ◌∷◌, ◌==◌,
  ==_iff, arith, Bool-cases, Option-cases,
}
use mentorio.Prelude.Text.{Text, same}
use mentorio.Http.{HttpRequest, Response, Url, RequestInit}
use mentorio.Json.{Json}
use mentorio.Client.{
  Page, Outcome, throw, api_error, ApiError, go_to, login_page, change_password_path, is_exempt,
  request_of, refresh_request, api_fetch_retry, api_fetch,
}
use mentorio.Client.Answers.{unwrap, unwrap-not-ok, settle_page, wants_password}
use mentorio.Client.Retry.{
  refreshes, sent_page, api_fetch_retry-answered, api_fetch_retry-rejected, api_fetch-rejected,
  api_fetch-settled, api_fetch-refreshed, api_fetch-expired,
}

-- Apart from the log of requests, the pages are the same.
abbrev pub SameButSent : {W : Type 0} → Page W → Page W → Type 0
SameButSent p q =
    (p.net ≡ q.net) × (p.pathname ≡ q.pathname) × (p.assigned ≡ q.assigned) × (p.saved ≡ q.saved)

go_to-SameButSent :
    {W : Type 0} (to : Text) (p : Page W) (sent : List HttpRequest)
    → SameButSent (go_to to (record p { sent = sent })) (go_to to p)
unfolding go_to
go_to-SameButSent to p sent = elim (Option-cases p.pathname) [
  | inl outside ↦ rw (outside, go_to) (refl, refl, refl, refl)
  | inr (here, inside) ↦ elim (Bool-cases (same here to)) [
    | inl there ↦ rw (inside, there, go_to) (refl, refl, refl, refl)
    | inr away ↦ rw (inside, away, go_to) (refl, refl, refl, refl)
  ]
]

settle_page-SameButSent :
    {W : Type 0} (r : Response) (p : Page W) (sent : List HttpRequest)
    → SameButSent (settle_page r (record p { sent = sent })) (settle_page r p)
unfolding settle_page
settle_page-SameButSent r p sent = elim (Bool-cases (wants_password r)) [
  | inl asked ↦ rw (asked, settle_page) (go_to-SameButSent change_password_path p sent)
  | inr not_asked ↦ rw (not_asked, settle_page) (refl, refl, refl, refl)
]

unauthorized :
    (r : Response) (url : Url)
    → r.status ≡ 401
    → is_exempt url ≡ false
    → (r.status == 401 && not (is_exempt url)) ≡ true
unauthorized r url e f = rw ((==_iff r.status 401).1 e, f)

authorized : (r : Response) (b : Bool) → r.status ≢ 401 → (r.status == 401 && b) ≡ false
authorized r b ne = ground arith

settle_page-401 : {W : Type 0} (r : Response) (p : Page W) → r.status ≡ 401 → settle_page r p ≡ p
unfolding settle_page
settle_page-401 r p e = rw e

go_to-away :
    {W : Type 0} (to here : Text) (p : Page W)
    → p.pathname ≡ some here
    → same here to ≡ false
    → (go_to to p).assigned ≡ to ∷ p.assigned
unfolding go_to
go_to-away to here p inside away = rw (inside, away, go_to)

-- Two answers with one value or error, on pages that differ in the log alone.
abbrev pub SameAnswer :
    {W : Type 0} → Outcome (Option Json) × Page W → Outcome (Option Json) × Page W → Type 0
SameAnswer x y = (x.0 ≡ y.0) × SameButSent x.1 y.1

module _ {W : Type 0} (send : HttpRequest → W → Option Response × W) (url : Url)
    (init : RequestInit) (p : Page W) (r : Response) where
  abbrev renewed_net : W
  renewed_net = (send refresh_request (send (request_of url init) p.net).1).1

  abbrev refreshed : Page W
  refreshed = sent_page send refresh_request (sent_page send (request_of url init) p)

  retry-renewed :
      ((s : Response) → (send (request_of url init) renewed_net).0 ≡ some s → s.status ≢ 401)
      → SameAnswer
          (api_fetch_retry send url init refreshed)
          (api_fetch send url init (record p { net = renewed_net }))
  retry-renewed fresh = elim (Option-cases (send (request_of url init) renewed_net).0) [
    | inl lost ↦
        rw
          (
            api_fetch_retry-rejected send url init refreshed lost,
            api_fetch-rejected send url init (record p { net = renewed_net }) lost,
          )
          (refl, (refl, refl, refl, refl))
    | inr (s, got) ↦
        rw
          (
            api_fetch_retry-answered send url init refreshed s got,
            api_fetch-settled send url init (record p { net = renewed_net }) s got
                (authorized s _ (fresh s got)),
          )
          (
            refl,
            settle_page-SameButSent s
                (sent_page send (request_of url init) (record p { net = renewed_net })) _,
          )
  ]

  -- An expired access token is not seen: where the first answer is a 401, the refresh succeeds and
  -- the renewed session is not refused, the call ends as it would have ended had it been made in the
  -- renewed session in the first place: the same value or error, network, navigations and files.
  pub api_fetch-renewed :
      (send (request_of url init) p.net).0 ≡ some r
      → r.status ≡ 401
      → is_exempt url ≡ false
      → refreshes (send refresh_request (send (request_of url init) p.net).1).0 ≡ true
      → ((s : Response) → (send (request_of url init) renewed_net).0 ≡ some s → s.status ≢ 401)
      → SameAnswer
          (api_fetch send url init p)
          (api_fetch send url init (record p { net = renewed_net }))
  api_fetch-renewed got status plain good fresh =
      rw (api_fetch-refreshed send url init p r got (unauthorized r url status plain) good)
        (retry-renewed fresh)

  unwrap-401 : r.status ≡ 401 → (e : ApiError) × (unwrap r ≡ throw (api_error e)) × (e.status ≡ 401)
  unwrap-401 status =
      let (e, is, same_status) = unwrap-not-ok r (rw status) in (e, is, same_status ∙ status)

  -- A session that is over ends the call with the 401 as an `ApiError`, and sends a page that is not
  -- the login page there.
  pub api_fetch-session_over :
      (here : Text)
      → (send (request_of url init) p.net).0 ≡ some r
      → r.status ≡ 401
      → is_exempt url ≡ false
      → refreshes (send refresh_request (send (request_of url init) p.net).1).0 ≡ false
      → p.pathname ≡ some here
      → same here login_page ≡ false
      → ((e : ApiError) × ((api_fetch send url init p).0 ≡ throw (api_error e)) × (e.status ≡ 401))
        × ((api_fetch send url init p).1.assigned ≡ login_page ∷ p.assigned)
  api_fetch-session_over here got status plain bad inside away =
      rw (api_fetch-expired send url init p r got (unauthorized r url status plain) bad) (
        unwrap-401 status,
        ap (λ (q : Page W). q.assigned) (settle_page-401 r _ status)
            ∙ go_to-away login_page here _ inside away,
      )
