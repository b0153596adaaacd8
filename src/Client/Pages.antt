-- ===== src/Client/Pages.antt =====
-- frontend/lib/api/client.ts: `fetchPage` and `fetchAllPages`, the calls for lists.
pub mod Complete
use mentorio.Prelude.{
  ℕ, zero, suc, ◌+◌, ◌-◌, String, Bool, true, false, Option, none, some, List, [], ◌∷◌, ◌++◌, leb,
  if◌then◌else◌, ◌==◌, str_eq,
}
use mentorio.Prelude.Int.{ℤ, pos, negsuc}
use mentorio.Prelude.Text.{Text, codes}
use mentorio.Prelude.Dict.{put}
use mentorio.Prelude.Number.{show}
use mentorio.Http.{Query, Url, no_init, HttpRequest, Response}
use mentorio.Json.{Json, arr, num, Decimal, elems, prop}
use mentorio.Client.{
  Page, Call, Outcome, ok, throw, Error, malformed, await, ◌>>=◌, ◌>>◌, return, fail, from_option,
  api_fetch,
}

pub record Pagination : Type 0 where
  pub count : ℕ
  pub page : ℕ
  pub pages : ℕ

-- `PaginatedEnvelope`
pub record Paginated : Type 0 where
  pub results : List Json
  pub pagination : Pagination

-- `Page`
pub record ResultPage : Type 0 where
  pub results : List Json
  pub page : ℕ
  pub page_count : ℕ
  pub total_count : ℕ

-- A number that counts; the envelope's contract has no other.
abbrev pub natural : ℤ → ℕ → Option ℕ
natural (pos n) zero = some n
natural _ _ = none

abbrev pub count_of : Option Json → Option ℕ
count_of (some (num d)) = natural d.units d.scale
count_of _ = none

abbrev pub list_of : Option Json → Option (List Json)
list_of (some (arr vs)) = some (elems vs)
list_of _ = none

abbrev pub pagination_of : Json → Option Pagination
pagination_of v = elim (count_of (prop "count" v)) [
  | none ↦ none
  | some count ↦ elim (count_of (prop "page" v)) [
    | none ↦ none
    | some page ↦ elim (count_of (prop "pages" v)) [
      | none ↦ none
      | some pages ↦ some (record { count = count; page = page; pages = pages })
    ]
  ]
]

-- Reads the data of an envelope as the code's types declare it; `none` on any other form.
unfoldable pub paginated_of : Option Json → Option Paginated
paginated_of none = none
paginated_of (some v) = elim (list_of (prop "results" v)) [
  | none ↦ none
  | some rows ↦ elim (prop "pagination" v) [
    | none ↦ none
    | some info ↦ elim (pagination_of info) [
      | none ↦ none
      | some pagination ↦ some (record { results = rows; pagination = pagination })
    ]
  ]
]

-- `${path}?${q}`, with the two keys set on a copy of the query.
unfoldable pub page_url : Text → Query → Text → ℕ → Url
page_url path query size page = record {
  path = path;
  query = some (put "page" (show page) (put "page_size" size query));
}

-- The results of a page and of those behind it, as `Promise.all` settles; every page is asked for,
-- also behind one that fails.
abbrev pub joined :
    {W : Type 0} → Outcome Paginated → Outcome (List Json) × Page W → Outcome (List Json) × Page W
joined (ok first) (ok rest, p) = (ok (first.results ++ rest), p)
joined (ok first) (throw e, p) = (throw e, p)
joined (throw e) (rest, p) = (throw e, p)

module _ {W : Type 0} (send : HttpRequest → W → Option Response × W) where
  -- `apiFetch<PaginatedEnvelope<T>>` for one page.
  unfoldable pub fetch_one : Text → Query → Text → ℕ → Call W Paginated
  fetch_one path query size page = do
    data_of ← api_fetch send (page_url path query size page) no_init
    from_option malformed (paginated_of data_of)

  -- `fetchPage`
  unfoldable pub fetch_page : Text → Query → ℕ → ℕ → Call W ResultPage
  fetch_page path query page page_size = do
    found ← fetch_one path query (show page_size) page
    return (record {
      results = found.results;
      page = found.pagination.page;
      page_count = found.pagination.pages;
      total_count = found.pagination.count;
    })

  -- `n` pages from `page` on.
  unfoldable pub fetch_rest : Text → Query → ℕ → ℕ → Call W (List Json)
  fetch_rest path query page zero p = (ok [], p)
  fetch_rest path query page (suc n) p =
      let (first, p') = fetch_one path query (codes "100") page p in
      joined first (fetch_rest path query (suc page) n p')

  -- `fetchAllPages`
  unfoldable pub fetch_all_pages : Text → Query → Call W (List Json)
  fetch_all_pages path query = do
    first ← fetch_one path query (codes "100") 1
    if leb first.pagination.pages 1 then return first.results else (do
      rest ← fetch_rest path query 2 (first.pagination.pages - 1)
      return (first.results ++ rest))
