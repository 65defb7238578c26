-- ===== src/Ingestion/Runner/Chunks.antt =====
-- The slices in which rows are stored.
use sih.Prelude.{
  All, List, [], ap, arith, length, length-take, refl, suc, take, zero, ℕ, ◌++◌, ◌<◌, ◌∙◌, ◌∷◌, ◌≡◌,
  ◌≤◌,
}
use sih.Prelude.Sort.{drop, take-append-drop}
use sih.Ingestion.Runner.{chunks, upsert_chunk}
use sih.Ingestion.Runner.Counts.{length-drop}

abbrev pub put_together : {A : Type 0} → List (List A) → List A
put_together [] = []
put_together (c ∷ cs) = c ++ put_together cs

-- Between 1 and 200 rows.
abbrev pub IsChunk : {A : Type 0} → List A → Type 0
IsChunk c = (0 < length c) × (length c ≤ upsert_chunk)

chunks-from :
    {A : Type 0} (fuel : ℕ) (l : List A)
    → length l ≤ fuel
    → (put_together (chunks fuel l) ≡ l) × All IsChunk (chunks fuel l)
unfolding chunks
chunks-from zero [] h = (refl, tt)
chunks-from zero (x ∷ xs) h = elim h [ ]
chunks-from (suc fuel) [] h = (refl, tt)
chunks-from (suc fuel) (x ∷ xs) h =
    let slice = take upsert_chunk (x ∷ xs) in
    let after = drop upsert_chunk (x ∷ xs) in
    let (whole, parts) =
      chunks-from fuel after (omega (arith, h, length-drop upsert_chunk (x ∷ xs))) in
    (
      ap (λ l. slice ++ l) whole ∙ take-append-drop upsert_chunk (x ∷ xs),
      ((omega arith, length-take upsert_chunk (x ∷ xs)), parts),
    )

-- The chunks of a list are put together the list again, so no row is left out or stored twice, and
-- each chunk has between 1 and 200 rows.
pub chunks_lem :
    {A : Type 0} (l : List A)
    → (put_together (chunks (length l) l) ≡ l) × All IsChunk (chunks (length l) l)
chunks_lem l = chunks-from (length l) l (omega arith)
