-- ===== src/Client/Session.antt =====
-- What a caller of `apiFetch` (frontend/lib/api/client.ts) can rely on while the access token runs
-- out and is renewed.
use mentorio.Prelude.{
  ◌≡◌, sym, ap, ◌∙◌, ◌⊎◌, inl, inr, Bool, true, false, not, ◌&&◌, Option, some, List, ◌∷◌, ◌==◌,
  arith, Bool-cases, Option-cases,
}
use mentorio.Http.{HttpRequest, Response, response_ok, Url, RequestInit}
use mentorio.Json.{Json, opt_prop, opt_truthy}
use mentorio.Client.{
  Page, ok, login_page, is_exempt, request_of, refresh_request, api_fetch_retry, api_fetch,
}
use mentorio.Client.Answers.{go_to-SameWire, unwrap, unwrap-eq-ok, settle_page-SameWire}
use mentorio.Client.Retry.{
  refreshes, sent_page, api_fetch_retry-answered, api_fetch_retry-rejected, api_fetch-rejected,
  api_fetch-settled, api_fetch-refreshed, api_fetch-expired,
}

module _ {W : Type 0} (send : HttpRequest → W → Option Response × W) where
  module _ (url : Url) (init : RequestInit) where
    -- The requests of a call that starts with `sent` behind it.
    abbrev pub Conversation : List HttpRequest → List HttpRequest → Type 0
    Conversation sent final =
        (final ≡ request_of url init ∷ sent)
        ⊎ ((is_exempt url ≡ false)
            × ((final ≡ refresh_request ∷ request_of url init ∷ sent)
                ⊎ (final ≡ request_of url init ∷ refresh_request ∷ request_of url init ∷ sent)))

    retry-sent :
        (p : Page W) → (api_fetch_retry send url init p).1.sent ≡ request_of url init ∷ p.sent
    retry-sent p = elim (Option-cases (send (request_of url init) p.net).0) [
      | inl lost ↦ ap (λ x. x.1.sent) (api_fetch_retry-rejected send url init p lost)
      | inr (r, got) ↦
          ap (λ x. x.1.sent) (api_fetch_retry-answered send url init p r got)
          ∙ (settle_page-SameWire r (sent_page send (request_of url init) p)).1
    ]

    not_exempt : (a b : Bool) → (a && not b) ≡ true → b ≡ false
    not_exempt a b h = ground arith

    -- A call sends its request once; or, if its path is not exempt, once with one refresh behind it,
    -- or twice with one refresh in between. It never sends anything else.
    pub api_fetch-Conversation :
        (p : Page W) → Conversation p.sent (api_fetch send url init p).1.sent
    api_fetch-Conversation p = elim (Option-cases (send (request_of url init) p.net).0) [
      | inl lost ↦ inl (ap (λ x. x.1.sent) (api_fetch-rejected send url init p lost))
      | inr (r, got) ↦ elim (Bool-cases (r.status == 401 && not (is_exempt url))) [
        | inr plain ↦ inl (
            ap (λ x. x.1.sent) (api_fetch-settled send url init p r got plain)
            ∙ (settle_page-SameWire r (sent_page send (request_of url init) p)).1)
        | inl expired ↦ inr (
          not_exempt (r.status == 401) (is_exempt url) expired,
          elim (Bool-cases
              (refreshes (send refresh_request (sent_page send (request_of url init) p).net).0)) [
                | inl good ↦ inr (
                    ap (λ x. x.1.sent) (api_fetch-refreshed send url init p r got expired good)
                    ∙ retry-sent _)
                | inr bad ↦ inl (
                    ap (λ x. x.1.sent) (api_fetch-expired send url init p r got expired bad)
                    ∙ (settle_page-SameWire r _).1
                    ∙ (go_to-SameWire login_page _).1)
              ],
        )
      ]
    ]

    -- A response that the server gave to this request, with a success envelope around `d`.
    abbrev pub Granted : Option Json → Type 0
    Granted d =
        (net : W) × (r : Response) × ((send (request_of url init) net).0 ≡ some r)
        × (response_ok r ≡ true)
        × (opt_truthy (opt_prop "success" r.body) ≡ true)
        × (d ≡ opt_prop "data" r.body)

    granted :
        (net : W) (r : Response) (d : Option Json)
        → (send (request_of url init) net).0 ≡ some r
        → unwrap r ≡ ok d
        → Granted d
    granted net r d got e =
        let (fine, success, is) = unwrap-eq-ok r d e in (net, r, got, fine, success, is)

    retry-Granted :
        (p : Page W) (d : Option Json) → (api_fetch_retry send url init p).0 ≡ ok d → Granted d
    retry-Granted p d e = elim (Option-cases (send (request_of url init) p.net).0) [
      | inl lost ↦ cc (ap (λ x. x.0) (api_fetch_retry-rejected send url init p lost))
      | inr (r, got) ↦
          granted p.net r d got
            (sym (ap (λ x. x.0) (api_fetch_retry-answered send url init p r got)) ∙ e)
    ]

    -- A call that succeeds returns the data of a success envelope, which the server sent with a
    -- status from 200 to 299 in answer to this very request.
    pub api_fetch-Granted :
        (p : Page W) (d : Option Json) → (api_fetch send url init p).0 ≡ ok d → Granted d
    api_fetch-Granted p d e = elim (Option-cases (send (request_of url init) p.net).0) [
      | inl lost ↦ cc (ap (λ x. x.0) (api_fetch-rejected send url init p lost))
      | inr (r, got) ↦ elim (Bool-cases (r.status == 401 && not (is_exempt url))) [
        | inr plain ↦
            granted p.net r d got
              (sym (ap (λ x. x.0) (api_fetch-settled send url init p r got plain)) ∙ e)
        | inl expired ↦
            elim (Bool-cases
              (refreshes (send refresh_request (sent_page send (request_of url init) p).net).0)) [
                | inl good ↦ retry-Granted _ d (
                    sym (ap (λ x. x.0) (api_fetch-refreshed send url init p r got expired good))
                    ∙ e)
                | inr bad ↦
                    granted p.net r d got (
                      sym (ap (λ x. x.0) (api_fetch-expired send url init p r got expired bad)) ∙ e)
              ]
      ]
    ]
