-- ===== src/Ingestion/Pages/Honest.antt =====
-- What `fetch_prices` fetches of an API that answers every request with what it is asked for.
use mathlib.Core.Path.{subst}
use mathlib.Core.List.{append-nil}
use sih.Prelude.{
  List, [], ap, arith, inl, inr, length, length-append, refl, some, suc, sym, take, ℕ, ◌++◌, ◌∙◌,
  ◌∷◌, ◌≡◌, ◌≢◌,
}
use sih.Prelude.Sort.{drop, take-append-drop}
use sih.Store.Keys.{List-cases}
use sih.Ingestion.Pages.{
  Attempt, Fetched, First, api_page_size, fetch_more, fetch_pages, fetch_raw, fetch_rest, fetched,
  get_json, is_transient, page_rows, received, retry_from, try_spelling, try_spellings,
}
use sih.Ingestion.Pages.Whole.{IsEnd, IsPrefix, ServesPrefixes, drop-append, fetch_pages_lem}

module _ {Item : Type 0} (api : ℕ → ℕ → ℕ → Attempt Item) (lists : ℕ → List Item) where
  -- Every attempt for an offset answers with the next 100 records, and the length of the list.
  abbrev pub IsHonest : Type 0
  IsHonest =
      (s o n : ℕ)
      → api s o n
        ≡ received (some (take api_page_size (drop o (lists s)))) (some (length (lists s)))

  get_json-honest :
      (s o : ℕ)
      → IsHonest
      → get_json (api s o)
        ≡ received (some (take api_page_size (drop o (lists s)))) (some (length (lists s)))
  unfolding retry_from is_transient
  get_json-honest s o honest = rw (honest s o 0) refl

  honest-ServesPrefixes : IsHonest → ServesPrefixes api lists
  honest-ServesPrefixes honest s o n h =
      subst (λ a. IsPrefix (page_rows a) (drop o (lists s))) (sym (honest s o n))
        (drop api_page_size (drop o (lists s)), take-append-drop api_page_size (drop o (lists s)))

  cons_not_empty : {x : Item} {xs : List Item} → x ∷ xs ≢ []
  cons_not_empty h = cc

  -- The list of a spelling is fetched to its end from any of its beginnings.
  whole_list :
      (s : ℕ) (out : List Item)
      → IsHonest
      → IsPrefix out (lists s)
      → IsEnd api s (length (lists s)) out
      → out ≡ lists s
  whole_list s out honest (rest, e) over = elim (List-cases rest) [
    | inl none_left ↦ sym (append-nil out) ∙ ap (λ l. out ++ l) (sym none_left) ∙ e
    | inr (x, xs, left) ↦ elim over [
      | inl h ↦ absurd (omega (arith, h, length-append out rest, ap length e, ap length left))
      | inr h ↦
          let after : drop (length out) (lists s) ≡ x ∷ xs =
            ap (drop (length out)) (sym e) ∙ drop-append out rest ∙ left in
          let page : take api_page_size (drop (length out) (lists s)) ≡ [] =
            ap page_rows (sym (get_json-honest s (length out) honest)) ∙ h in
          let page' : take api_page_size (x ∷ xs) ≡ [] =
            ap (take api_page_size) (sym after) ∙ page in
          absurd (cons_not_empty page')
    ]
  ]

  fetch_more-honest :
      (s : ℕ) (rows : List Item)
      → IsHonest
      → IsPrefix rows (lists s)
      → fetch_more api s (some (length (lists s))) (some rows) ≡ fetched (some (lists s))
  unfolding fetch_more
  fetch_more-honest s rows honest part =
      let goal = length (lists s) in
      let (out, found, whole, over) =
        fetch_pages_lem api lists (suc goal) s goal rows (honest-ServesPrefixes honest)
          (omega arith) part in
      ap fetched (found ∙ ap some (whole_list s out honest whole over))

  -- The first spelling that has records, or the first one of all.
  abbrev pub spelling_of : ℕ → List ℕ → ℕ
  spelling_of district [] = district
  spelling_of district (s ∷ ss) = elim (lists s) [ [] ↦ spelling_of district ss | x ∷ xs ↦ s ]

  answer_empty :
      (s : ℕ) → IsHonest → lists s ≡ [] → get_json (api s 0) ≡ received (some []) (some 0)
  answer_empty s honest e =
      get_json-honest s 0 honest
      ∙ ap (λ l. received (some (take api_page_size l)) (some (length l))) e

  -- A spelling with records ends the search.
  try_listed :
      (district s : ℕ) (x : Item) (xs : List Item) (others : First Item → Fetched (First Item))
      → IsHonest
      → lists s ≡ x ∷ xs
      → fetch_rest api (try_spelling api district s (get_json (api s 0)) others)
        ≡ fetched (some (lists s))
  unfolding try_spelling fetch_rest
  try_listed district s x xs others honest e =
      let begin : List Item = take api_page_size (x ∷ xs) in
      let answer : get_json (api s 0) ≡ received (some begin) (some (length (lists s))) =
        get_json-honest s 0 honest
        ∙ ap (λ l. received (some (take api_page_size l)) (some (length (lists s)))) e in
      rw answer (
        fetch_more-honest s begin honest
          (drop api_page_size (x ∷ xs), take-append-drop api_page_size (x ∷ xs) ∙ sym e))

  pub skipped :
      (district s : ℕ) (ss : List ℕ)
      → lists s ≡ []
      → spelling_of district (s ∷ ss) ≡ spelling_of district ss
  skipped district s ss e = rw (e, spelling_of) refl

  pub listed_first :
      (district s : ℕ) (x : Item) (xs : List Item) (ss : List ℕ)
      → lists s ≡ x ∷ xs
      → spelling_of district (s ∷ ss) ≡ s
  listed_first district s x xs ss e = rw (e, spelling_of) refl

  abbrev no_records : ℕ → First Item
  no_records district = record { records = some []; total = some 0; used_spelling = district }

  no_records_lem :
      (district : ℕ) → fetch_rest api (fetched (no_records district)) ≡ fetched (some [])
  unfolding fetch_rest fetch_more fetch_pages
  no_records_lem district = refl

  -- The spellings after the district's own, when that has no records.
  try_others :
      (district : ℕ) (ss : List ℕ)
      → IsHonest
      → lists district ≡ []
      → (so_far : Fetched (First Item)) → fetch_rest api so_far ≡ fetched (some [])
      → fetch_rest api (try_spellings api district so_far ss)
        ≡ fetched (some (lists (spelling_of district ss)))
  unfolding try_spellings try_spelling
  try_others district [] honest bare so_far h = h ∙ ap (λ l. fetched (some l)) (sym bare)
  try_others district (s ∷ ss) honest bare so_far h = elim (List-cases (lists s)) [
    | inl e ↦ rw (answer_empty s honest e) (
        try_others district ss honest bare (fetched (no_records district)) (no_records_lem district)
        ∙ ap (λ l. fetched (some (lists l))) (sym (skipped district s ss e)))
    | inr (x, xs, e) ↦
        try_listed district s x xs _ honest e
        ∙ ap (λ l. fetched (some (lists l))) (sym (listed_first district s x xs ss e))
  ]

  -- An API that answers every request with the records asked for, and with their number in all, is
  -- read to the end: `fetch_prices` gets all records of the first spelling that has any, in their
  -- order.
  pub fetch_raw-honest :
      (district : ℕ) (fallback : List ℕ)
      → IsHonest
      → fetch_raw api district fallback
        ≡ fetched (some (lists (spelling_of district (district ∷ fallback))))
  unfolding fetch_raw try_spellings try_spelling
  fetch_raw-honest district fallback honest = elim (List-cases (lists district)) [
    | inl e ↦ rw (answer_empty district honest e) (
        try_others district fallback honest e (fetched (no_records district))
          (no_records_lem district)
        ∙ ap (λ l. fetched (some (lists l))) (sym (skipped district district fallback e)))
    | inr (x, xs, e) ↦
        try_listed district district x xs _ honest e
        ∙ ap (λ l. fetched (some (lists l))) (sym (listed_first district district x xs fallback e))
  ]
