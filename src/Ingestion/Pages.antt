-- ===== src/Ingestion/Pages.antt =====
-- ingestion/data_gov_in.py: the requests of `DataGovInAdapter.fetch_prices`. The API is an argument:
-- what it answers to a spelling of the district, an offset, and the number of the attempt.
pub mod Whole
pub mod Complete
pub mod Honest
use sih.Prelude.{
  Bool, List, Option, [], false, if◌then◌else◌, leb, length, ltb, none, or_else, some, suc, true,
  zero, ℕ, ◌++◌, ◌+◌, ◌==◌, ◌||◌, ◌∷◌,
}

-- What `client.get`, `raise_for_status` and `resp.json` do: an answer, or an exception of httpx or of
-- the decoder.
pub data Attempt (Item : Type 0) : Type 0 where
  -- The answer's "records", when it has them, and its "total".
  received : Option (List Item) → Option ℕ → Attempt Item
  transport_error : Attempt Item
  request_error : Attempt Item
  status_error : ℕ → Attempt Item
  undecodable : Attempt Item

-- What `fetch_prices` raises: a SourceFetchError, or the exception of the decoder.
pub data Fetched (A : Type 0) : Type 0 where
  fetched : A → Fetched A
  fetch_error : Fetched A
  raised : Fetched A

abbrev pub api_page_size : ℕ
api_page_size = 100

-- `_is_transient`
unfoldable pub is_transient : {Item : Type 0} → Attempt Item → Bool
is_transient (received rows total) = false
is_transient transport_error = true
is_transient request_error = false
is_transient (status_error code) = code == 429 || leb 500 code
is_transient undecodable = false

-- `_get_json`: tried again after a transient error, `left` times at most; the last error is raised.
unfoldable pub retry_from : {Item : Type 0} → (ℕ → Attempt Item) → ℕ → ℕ → Attempt Item
unfolding is_transient
retry_from attempts zero n = attempts n
retry_from attempts (suc left) n =
    let again = retry_from attempts left (n + 1) in
    if is_transient (attempts n) then again else attempts n

abbrev pub get_json : {Item : Type 0} → (ℕ → Attempt Item) → Attempt Item
get_json attempts = retry_from attempts 2 0

-- The first answer, with the spelling that the further pages are asked for.
pub record First (Item : Type 0) : Type 0 where
  pub records : Option (List Item)
  pub total : Option ℕ
  pub used_spelling : ℕ

-- `page_data.get("records", [])`, empty too when the request fails.
abbrev pub page_rows : {Item : Type 0} → Attempt Item → List Item
page_rows (received none total) = []
page_rows (received (some rows) total) = rows
page_rows transport_error = []
page_rows request_error = []
page_rows (status_error code) = []
page_rows undecodable = []

module _ {Item : Type 0} (api : ℕ → ℕ → ℕ → Attempt Item) where
  -- The answer for a spelling is used if it has records; else the next spelling is tried.
  unfoldable pub try_spelling :
      ℕ → ℕ → Attempt Item → (First Item → Fetched (First Item)) → Fetched (First Item)
  try_spelling district s (received none total) others =
      others (record { records = none; total = total; used_spelling = district })
  try_spelling district s (received (some []) total) others =
      others (record { records = some []; total = total; used_spelling = district })
  try_spelling district s (received (some (r ∷ rs)) total) others =
      fetched (record { records = some (r ∷ rs); total = total; used_spelling = s })
  try_spelling district s transport_error others = fetch_error
  try_spelling district s request_error others = fetch_error
  try_spelling district s (status_error code) others = fetch_error
  try_spelling district s undecodable others = raised

  -- The loop over the spellings.
  unfoldable pub try_spellings : ℕ → Fetched (First Item) → List ℕ → Fetched (First Item)
  unfolding try_spelling
  try_spellings district so_far [] = so_far
  try_spellings district so_far (s ∷ ss) =
      try_spelling district s (get_json (api s 0)) (λ f. try_spellings district (fetched f) ss)

  -- The loop over the pages, which ends at an empty page or at one that fails: none when the fuel
  -- runs out.
  unfoldable pub fetch_pages : ℕ → ℕ → ℕ → List Item → Option (List Item)
  fetch_pages zero spelling total all_raw = none
  fetch_pages (suc fuel) spelling total all_raw = elim (ltb (length all_raw) total) [
    | false ↦ some all_raw
    | true ↦ elim (page_rows (get_json (api spelling (length all_raw)))) [
      | [] ↦ some all_raw
      | r ∷ rs ↦ fetch_pages fuel spelling total (all_raw ++ r ∷ rs)
    ]
  ]

  -- The pages after the first answer, with the fuel that is enough.
  unfoldable pub fetch_more : ℕ → Option ℕ → Option (List Item) → Fetched (Option (List Item))
  unfolding fetch_pages
  fetch_more spelling total none = fetch_error
  fetch_more spelling total (some rows) =
      let goal = or_else total (length rows) in fetched (fetch_pages (suc goal) spelling goal rows)

  unfoldable pub fetch_rest : Fetched (First Item) → Fetched (Option (List Item))
  unfolding fetch_more
  fetch_rest fetch_error = fetch_error
  fetch_rest raised = raised
  fetch_rest (fetched f) = fetch_more f.used_spelling f.total f.records

  -- The requests of `fetch_prices`.
  unfoldable pub fetch_raw : ℕ → List ℕ → Fetched (Option (List Item))
  unfolding try_spellings fetch_rest
  fetch_raw district fallback =
      fetch_rest (try_spellings district fetch_error (district ∷ fallback))
