-- ===== src/Forecast/Engine/Pairs.antt =====
-- The pages over which the pairs are collected.
use mathlib.Core.List.{append-nil}
use sih.Prelude.{
  Bool-cases, List, Option, [], ap, arith, false, inl, inr, length, ltb, ltb→lt, refl, some, suc,
  sym, true, zero, ℕ, ◌++◌, ◌+◌, ◌-◌, ◌<◌, ◌||◌, ◌∙◌, ◌∷◌, ◌≡◌, ◌≢◌, ◌≤◌, ◌⊎◌,
}
use sih.Store.Keys.{List-cases}
use sih.Forecast.Engine.{
  add_pair, add_pairs, distinct_pairs, engine_page_size, has_pair, same_pair, scan_page, scanned,
}

add_pairs-append :
    (known xs ys : List (ℕ × ℕ)) → add_pairs known (xs ++ ys) ≡ add_pairs (add_pairs known xs) ys
unfolding add_pairs
add_pairs-append known [] ys = refl
add_pairs-append known (x ∷ xs) ys = add_pairs-append (add_pair known x) xs ys

-- The same pair is in the same lists.
pub same_pair-has_pair :
    (p q : ℕ × ℕ) (known : List (ℕ × ℕ))
    → same_pair p q ≡ true
    → has_pair p known ≡ has_pair q known
same_pair-has_pair (a, b) (c, d) known h =
    let first_ids : a ≡ c = ground (arith, h) in
    let second_ids : b ≡ d = ground (arith, h) in rw (first_ids, second_ids) refl

has_pair-add_pair :
    (p q : ℕ × ℕ) (known : List (ℕ × ℕ))
    → has_pair p (add_pair known q) ≡ has_pair p known || same_pair p q
has_pair-add_pair p q known = elim (Bool-cases (same_pair p q)) [
  | inl t ↦
      let e = same_pair-has_pair p q known t in
      elim (Bool-cases (has_pair q known)) [
        | inl known_q ↦ rw (known_q, e, known_q) refl
        | inr new ↦ rw (new, t, e, new) refl
      ]
  | inr f ↦ ground (arith, f)
]

has_pair-add_pairs :
    (p : ℕ × ℕ) (known ps : List (ℕ × ℕ))
    → has_pair p (add_pairs known ps) ≡ has_pair p known || has_pair p ps
unfolding add_pairs
has_pair-add_pairs p known [] = ground arith
has_pair-add_pairs p known (q ∷ qs) =
    has_pair-add_pairs p (add_pair known q) qs
    ∙ ap (λ b. b || has_pair p qs) (has_pair-add_pair p q known)
    ∙ ground arith

-- No pair stands twice.
abbrev pub IsDistinct : List (ℕ × ℕ) → Type 0
IsDistinct [] = Unit
IsDistinct (p ∷ ps) = (has_pair p ps ≡ false) × IsDistinct ps

add_pair-IsDistinct :
    (known : List (ℕ × ℕ)) (p : ℕ × ℕ) → IsDistinct known → IsDistinct (add_pair known p)
add_pair-IsDistinct known p h = elim (Bool-cases (has_pair p known)) [
  | inl t ↦ rw t h
  | inr f ↦ rw f (f, h)
]

add_pairs-IsDistinct :
    (known ps : List (ℕ × ℕ)) → IsDistinct known → IsDistinct (add_pairs known ps)
unfolding add_pairs
add_pairs-IsDistinct known [] h = h
add_pairs-IsDistinct known (p ∷ ps) h =
    add_pairs-IsDistinct (add_pair known p) ps (add_pair-IsDistinct known p h)

cons_not_empty : (p : ℕ × ℕ) (ps : List (ℕ × ℕ)) → p ∷ ps ≢ []
cons_not_empty p ps h = cc

-- The rows of the pages together.
abbrev pub joined : List (List (ℕ × ℕ)) → List (ℕ × ℕ)
joined [] = []
joined (rows ∷ pages) = rows ++ joined pages

not_over :
    (total o : ℕ) (rows : List (ℕ × ℕ)) (p : ℕ × ℕ) (ps : List (ℕ × ℕ))
    → (total ≤ o → rows ≡ [])
    → rows ≡ p ∷ ps
    → o < total
not_over total o rows p ps over full = elim (Bool-cases (ltb o total)) [
  | inl t ↦ ltb→lt o total t
  | inr f ↦ let bare = over (ground (arith, f)) in absurd (cons_not_empty p ps (sym full ∙ bare))
]

module _ (page : ℕ → Option (List (ℕ × ℕ))) where
  -- Every query succeeds, and there are no rows at an offset of so many.
  abbrev pub EndsBy : ℕ → Type 0
  EndsBy total = (o : ℕ) → (rows : List (ℕ × ℕ)) × (page o ≡ some rows) × (total ≤ o → rows ≡ [])

  -- The pages from an offset to the first one that is not full.
  abbrev pub AreRead : ℕ → List (List (ℕ × ℕ)) → Type 0
  AreRead o [] = page o ≡ some []
  AreRead o (rows ∷ pages) =
      (page o ≡ some rows)
      × (((length rows < engine_page_size) × (pages ≡ []))
          ⊎ ((engine_page_size ≤ length rows) × AreRead (o + engine_page_size) pages))

  scan_pages :
      (fuel total o : ℕ) (known : List (ℕ × ℕ))
      → EndsBy total
      → total - o < fuel
      → (pages : List (List (ℕ × ℕ))) × AreRead o pages
        × (distinct_pairs page fuel o known ≡ scanned (add_pairs known (joined pages)))
  unfolding distinct_pairs scan_page
  scan_pages zero total o known ends h = absurd (omega (arith, h))
  scan_pages (suc fuel) total o known ends h =
      let (rows, answer, over) = ends o in
      elim (List-cases rows) [
        | inl bare ↦
            let nothing : page o ≡ some [] = answer ∙ ap some bare in
            ([], nothing, rw (nothing, add_pairs) refl)
        | inr (p, ps, full) ↦
            let here_page : page o ≡ some (p ∷ ps) = answer ∙ ap some full in
            elim (Bool-cases (ltb (length (p ∷ ps)) engine_page_size)) [
              | inl short ↦ (
                (p ∷ ps) ∷ [],
                (here_page, inl (ltb→lt _ _ short, refl)),
                rw (here_page, short)
                    (ap (λ l. scanned (add_pairs known l)) (sym (append-nil (p ∷ ps)))),
              )
              | inr not_short ↦
                  let early : o < total = not_over total o rows p ps over full in
                  let (pages, read, found) =
                    scan_pages fuel total (o + engine_page_size) (add_pairs known (p ∷ ps)) ends
                      (omega (arith, h, early)) in
                  (
                    (p ∷ ps) ∷ pages,
                    (here_page, inr (ground (arith, not_short), read)),
                    rw (here_page, not_short)
                        (found ∙ ap scanned (sym (add_pairs-append known (p ∷ ps) (joined pages)))),
                  )
            ]
      ]

  -- With one round of fuel more than there can be rows, the pages are all read: the pairs are those of
  -- the rows that were read, each once.
  pub distinct_pairs_lem :
      (total : ℕ)
      → EndsBy total
      → (pages : List (List (ℕ × ℕ))) × (ps : List (ℕ × ℕ)) × AreRead 0 pages
        × (distinct_pairs page (suc total) 0 [] ≡ scanned ps)
        × ((p : ℕ × ℕ) → has_pair p ps ≡ has_pair p (joined pages))
        × IsDistinct ps
  distinct_pairs_lem total ends =
      let (pages, read, found) = scan_pages (suc total) total 0 [] ends (omega arith) in
      (
        pages,
        add_pairs [] (joined pages),
        read,
        found,
        (λ p. has_pair-add_pairs p [] (joined pages)),
        add_pairs-IsDistinct [] (joined pages) tt,
      )
