-- ===== src/Client/Pages/Complete.antt =====
-- `fetchAllPages` (frontend/lib/api/client.ts) brings the whole list, each page once.
use mathlib.Core.Path.{subst}
use mathlib.Core.List.{append-nil, append_assoc}
use mentorio.Prelude.{
  ℕ, zero, suc, ◌+◌, ◌-◌, ◌≡◌, refl, sym, ◌∙◌, true, false, Option, some, List, [], ◌∷◌, ◌++◌, leb,
  length, get_elem?, arith,
}
use mentorio.Prelude.Text.{Text, codes}
use mentorio.Http.{Query, no_init, HttpRequest, Response}
use mentorio.Json.{Json, opt_prop, opt_truthy}
use mentorio.Client.{Page, ok, request_of, await}
use mentorio.Client.Answers.{unwrap, settle_page, settle_page-SameWire}
use mentorio.Client.Retry.{sent_page, api_fetch-settled}
use mentorio.Client.Pages.{
  Paginated, paginated_of, page_url, fetch_one, fetch_rest, fetch_all_pages,
}

abbrev pub concat {ℓ} : {A : Type ℓ} → List (List A) → List A
concat [] = []
concat (xs ∷ xss) = xs ++ concat xss

-- A good answer with one page of `pages`.
pub record IsPage (r : Response) (rows : List Json) (pages : ℕ) : Type 0 where
  pub status : r.status ≡ 200
  pub parsed : opt_truthy r.body ≡ true
  pub success : opt_truthy (opt_prop "success" r.body) ≡ true
  pub page : Paginated
  pub read : paginated_of (opt_prop "data" r.body) ≡ some page
  pub results : page.results ≡ rows
  pub count : page.pagination.pages ≡ pages

-- The server holds the list in `chunks`: whenever page n is asked for, it answers with chunk n, and
-- with the number of chunks.
abbrev pub Serves :
    {W : Type 0}
    → (HttpRequest → W → Option Response × W)
    → Text
    → Query
    → List (List Json)
    → Type 0
Serves {W} send path query chunks =
    (n : ℕ) (rows : List Json) (net : W)
    → get_elem? chunks n ≡ some rows
    → (r : Response) × ((send (request_of (page_url path query (codes "100") (suc n)) no_init)
          net).0
        ≡ some r)
      × IsPage r rows (length chunks)

unwrap-IsPage :
    (r : Response) (rows : List Json) (pages : ℕ)
    → IsPage r rows pages
    → unwrap r ≡ ok (opt_prop "data" r.body)
unfolding unwrap
unwrap-IsPage r rows pages h = rw (h.status, h.parsed, h.success)

-- The requests for `count` pages from number `page` on, the last one first.
abbrev pub requests : Text → Query → ℕ → ℕ → List HttpRequest
requests path query page zero = []
requests path query page (suc count) =
    requests path query (suc page) count
    ++ request_of (page_url path query (codes "100") page) no_init ∷ []

module _ {W : Type 0} (send : HttpRequest → W → Option Response × W) (path : Text) (query : Query)
    (chunks : List (List Json)) (serves : Serves send path query chunks) where
  -- The request for chunk n, which is page n + 1.
  abbrev asked : ℕ → HttpRequest
  asked n = request_of (page_url path query (codes "100") (suc n)) no_init

  -- The page that was asked for, and one request more.
  Fetched : ℕ → Page W → List Json → Type 0
  Fetched n p rows =
      (page : Paginated) × (p' : Page W) × (fetch_one send path query (codes "100") (suc n) p
        ≡ (ok page, p'))
      × (page.results ≡ rows)
      × (page.pagination.pages ≡ length chunks)
      × (p'.sent ≡ asked n ∷ p.sent)

  fetch_one-Fetched :
      (n : ℕ) (p : Page W) (rows : List Json) → get_elem? chunks n ≡ some rows → Fetched n p rows
  unfolding fetch_one Fetched await
  fetch_one-Fetched n p rows at_n =
      let (r, got, good) = serves n rows p.net at_n in
      (
        good.page,
        settle_page r
            (sent_page send (request_of (page_url path query (codes "100") (suc n)) no_init) p),
        rw (
          api_fetch-settled send _ no_init p r got (rw good.status),
          unwrap-IsPage r rows _ good,
          good.read,
        ),
        good.results,
        good.count,
        (settle_page-SameWire r _).1,
      )

  -- `rest` are the chunks from number `k` on.
  abbrev From : ℕ → List (List Json) → Type 0
  From k rest =
      (i : ℕ) (rows : List Json)
      → get_elem? rest i ≡ some rows
      → get_elem? chunks (k + i) ≡ some rows

  From-tail :
      (k : ℕ) (rows : List Json) (rest : List (List Json))
      → From k (rows ∷ rest)
      → From (suc k) rest
  From-tail k rows rest h i found at_i =
      subst (λ j. get_elem? chunks j ≡ some found) (omega arith) (h (suc i) found at_i)

  fetch_rest-eq :
      (rest : List (List Json)) (k : ℕ) (p : Page W)
      → From k rest
      → (p' : Page W) × (fetch_rest send path query (suc k) (length rest) p
          ≡ (ok (concat rest), p'))
        × (p'.sent ≡ requests path query (suc k) (length rest) ++ p.sent)
  unfolding fetch_rest Fetched
  fetch_rest-eq [] k p h = (p, refl, refl)
  fetch_rest-eq (rows ∷ rest) k p h =
      let (page, p₁, one, results, _, once) =
        fetch_one-Fetched k p rows
          (subst (λ j. get_elem? chunks j ≡ some rows) (omega arith) (h 0 rows refl)) in
      let (p₂, more, many) = fetch_rest-eq rest (suc k) p₁ (From-tail k rows rest h) in
      (
        p₂,
        rw (one, fetch_rest) (rw more (rw results)),
        many ∙ rw once (sym (append_assoc (requests path query (suc (suc k)) (length rest)) _ _)),
      )

one-add : (i : ℕ) → 1 + i ≡ suc i
one-add i = omega arith

leb-more : (n : ℕ) → leb (suc (suc n)) 1 ≡ false
leb-more n = ground arith

sub-more : (n : ℕ) → suc (suc n) - 1 ≡ suc n
sub-more n = omega arith

get_elem?-one-add :
    {A : Type 0} (x : A) (xs : List A) (i : ℕ) (y : A)
    → get_elem? xs i ≡ some y
    → get_elem? (x ∷ xs) (1 + i) ≡ some y
get_elem?-one-add x xs i y e = rw (one-add i) e

-- A server that holds a list in one or more pages hands all of it over, in order. What is sent are
-- the requests for page 1 to the last, in this order, each once, and nothing else.
pub fetch_all_pages_complete :
    {W : Type 0} (send : HttpRequest → W → Option Response × W) (path : Text) (query : Query)
    (first : List Json) (rest : List (List Json)) (p : Page W)
    → Serves send path query (first ∷ rest)
    → (p' : Page W) × (fetch_all_pages send path query p ≡ (ok (first ++ concat rest), p'))
      × (p'.sent ≡ requests path query 1 (length (first ∷ rest)) ++ p.sent)
unfolding fetch_all_pages Fetched await
fetch_all_pages_complete send path query first [] p serves =
    let (page, p₁, one, results, pages, once) =
      fetch_one-Fetched send path query (first ∷ []) serves 0 p first refl in
    (p₁, rw (one, pages, results, append-nil first), once)
fetch_all_pages_complete send path query first (second ∷ rest) p serves =
    let (page, p₁, one, results, pages, once) =
      fetch_one-Fetched send path query (first ∷ second ∷ rest) serves 0 p first refl in
    let (p₂, more, many) =
      fetch_rest-eq send path query (first ∷ second ∷ rest) serves (second ∷ rest) 1 p₁
        (get_elem?-one-add first (second ∷ rest)) in
    (
      p₂,
      rw (one, pages, leb-more (length rest), sub-more (length rest), more, results),
      many ∙ rw once (sym (append_assoc (requests path query 2 (length (second ∷ rest))) _ _)),
    )
