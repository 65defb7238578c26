-- ===== src/Ingestion/Pages/Complete.antt =====
-- What `fetch_prices` fetches, of any API that serves parts of lists and of one that is honest.
use mathlib.Core.Option.{some-injective}
use mathlib.Core.Path.{subst}
use sih.Prelude.{
  Elem, List, Option, [], ap, arith, here, length, none, or_else, refl, some, suc, sym, there, ℕ,
  ◌++◌, ◌∙◌, ◌∷◌, ◌≡◌,
}
use sih.Ingestion.Pages.{
  Attempt, Fetched, First, fetch_error, fetch_more, fetch_raw, fetch_rest, fetched, get_json,
  page_rows, raised, received, request_error, status_error, transport_error, try_spelling,
  try_spellings, undecodable,
}
use sih.Ingestion.Pages.Whole.{IsPrefix, ServesPrefixes, fetch_pages_lem, get_json-IsPrefix}

module _ {Item : Type 0} (api : ℕ → ℕ → ℕ → Attempt Item) (lists : ℕ → List Item) where
  -- The first answer is the beginning of the list of the spelling that is used.
  IsStart : List ℕ → First Item → Type 0
  IsStart spellings f =
      (rows : List Item)
      → f.records ≡ some rows
      → Elem f.used_spelling spellings × IsPrefix rows (lists f.used_spelling)

  -- What holds of the outcome when there is one.
  abbrev Holds : (First Item → Type 0) → Fetched (First Item) → Type 0
  Holds P (fetched f) = P f
  Holds P fetch_error = Unit
  Holds P raised = Unit

  try_spelling-IsStart :
      (known : List ℕ) (district s : ℕ) (a : Attempt Item)
      (others : First Item → Fetched (First Item))
      → Elem district known
      → Elem s known
      → IsPrefix (page_rows a) (lists s)
      → ((f : First Item) → IsStart known f → Holds (IsStart known) (others f))
      → Holds (IsStart known) (try_spelling api district s a others)
  unfolding try_spelling IsStart
  try_spelling-IsStart known district s (received none total) others d e part k =
      k _ (λ found h. cc)
  try_spelling-IsStart known district s (received (some []) total) others d e part k =
      k _ (λ found h.
        (d, (lists district, ap (λ l. l ++ lists district) (sym (some-injective _ _ h)))))
  try_spelling-IsStart known district s (received (some (r ∷ rs)) total) others d e part k =
      λ found h. (e, (part.0, ap (λ l. l ++ part.0) (sym (some-injective _ _ h)) ∙ part.1))
  try_spelling-IsStart known district s transport_error others d e part k = tt
  try_spelling-IsStart known district s request_error others d e part k = tt
  try_spelling-IsStart known district s (status_error code) others d e part k = tt
  try_spelling-IsStart known district s undecodable others d e part k = tt

  try_spellings-IsStart :
      (known ss : List ℕ) (district : ℕ) (so_far : Fetched (First Item))
      → ServesPrefixes api lists
      → Elem district known
      → ((s : ℕ) → Elem s ss → Elem s known)
      → Holds (IsStart known) so_far
      → Holds (IsStart known) (try_spellings api district so_far ss)
  unfolding try_spellings
  try_spellings-IsStart known [] district so_far serves d sub k = k
  try_spellings-IsStart known (s ∷ ss) district so_far serves d sub k =
      try_spelling-IsStart known district s (get_json (api s 0)) _ d (sub s (here refl))
        (get_json-IsPrefix api lists s 0 serves (omega arith))
        (λ f start.
          try_spellings-IsStart known ss district (fetched f) serves d (λ t e. sub t (there e))
            start)

  Ends : List ℕ → Fetched (Option (List Item)) → Type 0
  Ends known fetch_error = Unit
  Ends known raised = Unit
  Ends known (fetched answer) =
      (s : ℕ) × (out : List Item) × Elem s known × (answer ≡ some out) × IsPrefix out (lists s)

  fetch_more-Ends :
      (known : List ℕ) (s : ℕ) (total : Option ℕ) (records : Option (List Item))
      → ServesPrefixes api lists
      → ((rows : List Item) → records ≡ some rows → Elem s known × IsPrefix rows (lists s))
      → Ends known (fetch_more api s total records)
  unfolding fetch_more Ends
  fetch_more-Ends known s total none serves h = tt
  fetch_more-Ends known s total (some rows) serves h =
      let (listed, part) = h rows refl in
      let goal = or_else total (length rows) in
      let (out, found, whole, over) =
        fetch_pages_lem api lists (suc goal) s goal rows serves (omega arith) part in
      (s, out, listed, found, whole)

  fetch_rest-Ends :
      (known : List ℕ) (f : Fetched (First Item))
      → ServesPrefixes api lists
      → Holds (IsStart known) f
      → Ends known (fetch_rest api f)
  unfolding fetch_rest Ends IsStart
  fetch_rest-Ends known fetch_error serves h = tt
  fetch_rest-Ends known raised serves h = tt
  fetch_rest-Ends known (fetched f) serves h =
      fetch_more-Ends known f.used_spelling f.total f.records serves h

  fetch_raw-Ends :
      (district : ℕ) (fallback : List ℕ)
      → ServesPrefixes api lists
      → Ends (district ∷ fallback) (fetch_raw api district fallback)
  unfolding fetch_raw
  fetch_raw-Ends district fallback serves =
      let known = district ∷ fallback in
      fetch_rest-Ends known (try_spellings api district fetch_error known) serves
        (try_spellings-IsStart known known district fetch_error serves (here refl) (λ s e. e) tt)

  -- Whatever requests fail, the loop over the pages ends, and the records fetched are the first ones
  -- of the list of one of the spellings, in order: none is skipped before one that was fetched, and
  -- none is there twice. The API may send pages of any length, each a part of the list at its offset.
  pub fetch_raw-IsPrefix :
      (district : ℕ) (fallback : List ℕ) {answer : Option (List Item)}
      → ServesPrefixes api lists
      → fetch_raw api district fallback ≡ fetched answer
      → (s : ℕ) × (out : List Item) × Elem s (district ∷ fallback)
        × (answer ≡ some out)
        × IsPrefix out (lists s)
  unfolding Ends
  fetch_raw-IsPrefix district fallback serves h =
      subst (Ends (district ∷ fallback)) h (fetch_raw-Ends district fallback serves)
