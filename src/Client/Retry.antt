-- ===== src/Client/Retry.antt =====
-- The one refresh and the one retry of `apiFetch` (frontend/lib/api/client.ts), against every
-- network and server.
use mentorio.Prelude.{
  ◌≡◌, inl, inr, Bool, true, false, not, ◌&&◌, Option, none, some, ◌∷◌, ◌==◌, Option-cases,
}
use mentorio.Http.{HttpRequest, Response, response_ok, Url, RequestInit}
use mentorio.Client.{
  Page, ok, throw, rejected, go_to, login_page, is_exempt, fetch, request_of, do_fetch,
  refresh_request, refresh_access_token, api_fetch_retry, after_unauthorized, api_fetch, await,
  as_boolean,
}
use mentorio.Client.Answers.{unwrap, settle_page, settle-eq}

-- The value of `refreshAccessToken` for an answer to its request.
abbrev pub refreshes : Option Response → Bool
refreshes none = false
refreshes (some r) = response_ok r

module _ {W : Type 0} (send : HttpRequest → W → Option Response × W) where
  -- The page once `q` is out and the network is at `net`.
  abbrev pub sent_page : HttpRequest → Page W → Page W
  sent_page q p = record p { net = (send q p.net).1; sent = q ∷ p.sent }

  pub fetch-answered :
      (q : HttpRequest) (p : Page W) (r : Response)
      → (send q p.net).0 ≡ some r
      → fetch send q p ≡ (ok r, sent_page q p)
  unfolding fetch
  fetch-answered q p r e = rw (e, fetch)

  pub fetch-rejected :
      (q : HttpRequest) (p : Page W)
      → (send q p.net).0 ≡ none
      → fetch send q p ≡ (throw rejected, sent_page q p)
  unfolding fetch
  fetch-rejected q p e = rw (e, fetch)

  -- Whether the refresh of a page succeeds, and the page behind it.
  pub refresh_access_token-eq :
      (p : Page W)
      → refresh_access_token send p
        ≡ (ok (refreshes (send refresh_request p.net).0), sent_page refresh_request p)
  unfolding refresh_access_token as_boolean
  refresh_access_token-eq p = elim (Option-cases (send refresh_request p.net).0) [
    | inl lost ↦ rw (fetch-rejected refresh_request p lost, lost)
    | inr (r, got) ↦ rw (fetch-answered refresh_request p r got, got)
  ]

  pub api_fetch_retry-answered :
      (url : Url) (init : RequestInit) (p : Page W) (r : Response)
      → (send (request_of url init) p.net).0 ≡ some r
      → api_fetch_retry send url init p
        ≡ (unwrap r, settle_page r (sent_page (request_of url init) p))
  unfolding api_fetch_retry do_fetch await
  api_fetch_retry-answered url init p r e =
      rw (fetch-answered (request_of url init) p r e) (settle-eq r _)

  pub api_fetch_retry-rejected :
      (url : Url) (init : RequestInit) (p : Page W)
      → (send (request_of url init) p.net).0 ≡ none
      → api_fetch_retry send url init p ≡ (throw rejected, sent_page (request_of url init) p)
  unfolding api_fetch_retry do_fetch await
  api_fetch_retry-rejected url init p e = rw (fetch-rejected (request_of url init) p e)

  pub api_fetch-rejected :
      (url : Url) (init : RequestInit) (p : Page W)
      → (send (request_of url init) p.net).0 ≡ none
      → api_fetch send url init p ≡ (throw rejected, sent_page (request_of url init) p)
  unfolding api_fetch do_fetch await
  api_fetch-rejected url init p e = rw (fetch-rejected (request_of url init) p e)

  -- No refresh: another status than 401, or a path that is exempt.
  pub api_fetch-settled :
      (url : Url) (init : RequestInit) (p : Page W) (r : Response)
      → (send (request_of url init) p.net).0 ≡ some r
      → (r.status == 401 && not (is_exempt url)) ≡ false
      → api_fetch send url init p ≡ (unwrap r, settle_page r (sent_page (request_of url init) p))
  unfolding api_fetch do_fetch await
  api_fetch-settled url init p r e plain =
      rw (fetch-answered (request_of url init) p r e, plain) (settle-eq r _)

  module _ (url : Url) (init : RequestInit) (p : Page W) (r : Response)
      (answered : (send (request_of url init) p.net).0 ≡ some r)
      (unauthorized : (r.status == 401 && not (is_exempt url)) ≡ true) where
    abbrev refreshed_page : Page W
    refreshed_page = sent_page refresh_request (sent_page (request_of url init) p)

    pub api_fetch-refreshed :
        refreshes (send refresh_request (sent_page (request_of url init) p).net).0 ≡ true
        → api_fetch send url init p ≡ api_fetch_retry send url init refreshed_page
    unfolding api_fetch do_fetch await after_unauthorized
    api_fetch-refreshed good = rw (
      fetch-answered (request_of url init) p r answered,
      unauthorized,
      refresh_access_token-eq (sent_page (request_of url init) p),
      good,
    )

    pub api_fetch-expired :
        refreshes (send refresh_request (sent_page (request_of url init) p).net).0 ≡ false
        → api_fetch send url init p ≡ (unwrap r, settle_page r (go_to login_page refreshed_page))
    unfolding api_fetch do_fetch await after_unauthorized
    api_fetch-expired bad =
        rw
          (
            fetch-answered (request_of url init) p r answered,
            unauthorized,
            refresh_access_token-eq (sent_page (request_of url init) p),
            bad,
          )
          (settle-eq r _)
