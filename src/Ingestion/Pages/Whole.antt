-- ===== src/Ingestion/Pages/Whole.antt =====
-- What the pages of the API add up to.
use mathlib.Core.Path.{subst}
use mathlib.Core.List.{append_assoc}
use sih.Prelude.{
  Bool-cases, List, [], ap, arith, inl, inr, length, length-append, ltb, ltb→lt, refl, some, suc,
  sym, zero, ℕ, ◌++◌, ◌+◌, ◌-◌, ◌<◌, ◌∙◌, ◌∷◌, ◌≡◌, ◌≤◌, ◌⊎◌,
}
use sih.Prelude.Sort.{drop}
use sih.Store.Keys.{List-cases}
use sih.Ingestion.Pages.{Attempt, fetch_pages, get_json, is_transient, page_rows, retry_from}

abbrev pub IsPrefix : {Item : Type 0} → List Item → List Item → Type 0
IsPrefix {Item} out l = (rest : List Item) × (out ++ rest ≡ l)

pub drop-append : {Item : Type 0} (xs ys : List Item) → drop (length xs) (xs ++ ys) ≡ ys
drop-append [] ys = refl
drop-append (x ∷ xs) ys = drop-append xs ys

-- A prefix of what comes after a prefix makes it longer.
IsPrefix-append :
    {Item : Type 0} (xs ys l : List Item)
    → IsPrefix xs l
    → IsPrefix ys (drop (length xs) l)
    → IsPrefix (xs ++ ys) l
IsPrefix-append xs ys l (rest, e) (more, e') =
    let after : ys ++ more ≡ rest = e' ∙ ap (drop (length xs)) (sym e) ∙ drop-append xs rest in
    (more, append_assoc xs ys more ∙ ap (λ t. xs ++ t) after ∙ e)

IsPrefix-length : {Item : Type 0} (xs l : List Item) → IsPrefix xs l → length xs ≤ length l
IsPrefix-length xs l (rest, e) = omega (arith, length-append xs rest, ap length e)

-- The attempt whose outcome counts: the first that fails for good or succeeds, of three at most.
retry_from_lem :
    {Item : Type 0} (attempts : ℕ → Attempt Item) (left n : ℕ)
    → (k : ℕ) × (n ≤ k) × (k ≤ n + left) × (retry_from attempts left n ≡ attempts k)
unfolding retry_from
retry_from_lem attempts zero n = (n, omega arith, omega arith, refl)
retry_from_lem attempts (suc left) n = elim (Bool-cases (is_transient (attempts n))) [
  | inl t ↦
      let (k, least, most, e) = retry_from_lem attempts left (n + 1) in
      (k, omega arith, omega arith, rw t e)
  | inr f ↦ (n, omega arith, omega arith, rw f refl)
]

module _ {Item : Type 0} (api : ℕ → ℕ → ℕ → Attempt Item) where
  -- The API has a list for each spelling, and a page that it sends is a part of it from the offset on.
  abbrev pub ServesPrefixes : (ℕ → List Item) → Type 0
  ServesPrefixes lists =
      (s o n : ℕ) → o ≤ length (lists s) → IsPrefix (page_rows (api s o n)) (drop o (lists s))

  pub get_json-IsPrefix :
      (lists : ℕ → List Item) (s o : ℕ)
      → ServesPrefixes lists
      → o ≤ length (lists s)
      → IsPrefix (page_rows (get_json (api s o))) (drop o (lists s))
  get_json-IsPrefix lists s o serves h =
      let (k, least, most, e) = retry_from_lem (api s o) 2 0 in
      subst (λ a. IsPrefix (page_rows a) (drop o (lists s))) (sym e) (serves s o k h)

  -- The pages end at the total, or where a page is empty or fails.
  abbrev pub IsEnd : ℕ → ℕ → List Item → Type 0
  IsEnd spelling total out =
      (total ≤ length out) ⊎ (page_rows (get_json (api spelling (length out))) ≡ [])

  pub fetch_pages_lem :
      (lists : ℕ → List Item) (fuel s total : ℕ) (all_raw : List Item)
      → ServesPrefixes lists
      → total - length all_raw < fuel
      → IsPrefix all_raw (lists s)
      → (out : List Item) × (fetch_pages api fuel s total all_raw ≡ some out)
        × IsPrefix out (lists s)
        × IsEnd s total out
  unfolding fetch_pages
  fetch_pages_lem lists zero s total all_raw serves h (rest, e) = elim h [ ]
  fetch_pages_lem lists (suc fuel) s total all_raw serves h (rest, e) =
      elim (Bool-cases (ltb (length all_raw) total)) [
        | inr f ↦ (all_raw, rw (f, fetch_pages) refl, (rest, e), inl (ground (arith, f)))
        | inl t ↦ elim (List-cases (page_rows (get_json (api s (length all_raw))))) [
          | inl empty ↦ (all_raw, rw (t, empty, fetch_pages) refl, (rest, e), inr empty)
          | inr (r, rs, page) ↦
              let longer : IsPrefix (all_raw ++ r ∷ rs) (lists s) =
                IsPrefix-append all_raw (r ∷ rs) (lists s) (rest, e)
                  (subst (λ l. IsPrefix l (drop (length all_raw) (lists s))) page
                    (get_json-IsPrefix lists s (length all_raw) serves
                      (IsPrefix-length all_raw (lists s) (rest, e)))) in
              let (out, found, part, over) =
                fetch_pages_lem lists fuel s total (all_raw ++ r ∷ rs) serves
                  (omega (arith, h, length-append all_raw (r ∷ rs), ltb→lt _ _ t)) longer in
              (out, rw (t, page, fetch_pages) found, part, over)
        ]
      ]
