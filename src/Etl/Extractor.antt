-- ===== src/Etl/Extractor.antt =====
-- internal/features/etl_validation/extractor/entities.go: reading all pages of one entity, as the staging
-- of the pipeline does; the rows of a page are taken as decoded. `fetch` is what
-- `Client.Do` (Extractor/Client.antt) comes to for one page, its repetitions included, given the cursor
-- and the entity tag to compare.
pub mod Client
pub mod Complete
use forecast_e_zoo.Common.{ℕ, zero, suc, ◌+◌, List, [], ◌∷◌, ◌++◌}
use forecast_e_zoo.Common.Text.{Text}
use forecast_e_zoo.Common.Session.{internal, Result, ok, err}

-- The outcome of fetchPage by the status of the answer.
pub data Fetched (A : Type 0) : Type 0 where
  fetched : List A → Text → Fetched A  -- 200: the rows of the page and the next cursor
  unchanged : Fetched A  -- 304
  not_exported : Fetched A  -- 404, 501
  unavailable : Fetched A  -- any other status, or no answer

-- A page that was opened: its rows, and the cursor of the next.
pub record Page (A : Type 0) : Type 0 where
  pub rows : List A
  pub cursor : Text

unfoldable pub fetch_page : {A : Type 0} → Fetched A → Result (Page A)
fetch_page (fetched rows next) = ok (record { rows = rows; cursor = next })
fetch_page unchanged = ok (record { rows = []; cursor = [] })
fetch_page not_exported = ok (record { rows = []; cursor = [] })
fetch_page unavailable = err internal

-- All rows read, or the error; and the number of pages that were asked for (a page may cost several
-- HTTP requests, since the client repeats a failed one).
pub record Stream (A : Type 0) : Type 0 where
  pub rows : Result (List A)
  pub pages : ℕ

-- pageFetchSafetyCap
abbrev pub page_fetch_safety_cap : ℕ
page_fetch_safety_cap = 100000

abbrev pub prepend : {A : Type 0} → List A → Stream A → Stream A
prepend xs s = record {
  rows = elim s.rows [ ok ys ↦ ok (xs ++ ys) | err e ↦ err e ];
  pages = s.pages + 1;
}

abbrev pub ended : {A : Type 0} → Result (List A) → Stream A
ended r = record { rows = r; pages = 1 }

-- What follows a page: the end of the stream, or the rest that the next pages give.
abbrev pub continue_with : {A : Type 0} → Result (Page A) → (Text → Stream A) → Stream A
continue_with (err e) rest = ended (err e)
continue_with (ok p) rest = elim p.cursor [
  | [] ↦ ended (ok p.rows)
  | c ∷ s ↦ prepend p.rows (rest (c ∷ s))
]

-- openNextPage and Next to the end: with `left` pages up to the cap; only the first page is asked for
-- with the entity tag.
unfoldable pub read_pages : {A : Type 0} → (Text → Text → Fetched A) → ℕ → Text → Text → Stream A
unfolding fetch_page
read_pages fetch zero cursor etag = record { rows = err internal; pages = 0 }
read_pages fetch (suc left) cursor etag =
    continue_with (fetch_page (fetch cursor etag)) (λ next. read_pages fetch left next [])

unfoldable pub stream : {A : Type 0} → (Text → Text → Fetched A) → Text → Stream A
stream fetch etag = read_pages fetch page_fetch_safety_cap [] etag
