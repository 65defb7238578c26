-- ===== src/Prices/Names.antt =====
-- `_norm_key` of ingestion/validator.py and ingestion/runner.py, the keys by which names of markets and
-- of crops are compared. Texts are lists of character codes; `str.lower` and `str.isspace` are
-- parameters.
pub mod Normal
use sih.Prelude.{Bool, List, [], false, if◌then◌else◌, true, ℕ, ◌&&◌, ◌++◌, ◌==◌, ◌∷◌}

abbrev pub Text : Type 0
Text = List ℕ

abbrev pub space : ℕ
space = 32

abbrev pub same_text : Text → Text → Bool
same_text [] [] = true
same_text [] (d ∷ ds) = false
same_text (c ∷ cs) [] = false
same_text (c ∷ cs) (d ∷ ds) = c == d && same_text cs ds

abbrev pub flush : Text → List Text → List Text
flush [] ws = ws
flush (c ∷ cs) ws = (c ∷ cs) ∷ ws

-- `" ".join(ws)`
abbrev pub join : List Text → Text
join [] = []
join (w ∷ []) = w
join (w ∷ v ∷ ws) = w ++ space ∷ join (v ∷ ws)

module _ (is_space : ℕ → Bool) where
  unfoldable pub lstrip : Text → Text
  lstrip [] = []
  lstrip (c ∷ cs) = let rest = lstrip cs in if is_space c then rest else c ∷ cs

  unfoldable pub rstrip : Text → Text
  rstrip [] = []
  rstrip (c ∷ cs) = elim (rstrip cs) [
    | [] ↦ (if is_space c then [] else c ∷ [])
    | d ∷ ds ↦ c ∷ d ∷ ds
  ]

  unfoldable pub strip : Text → Text
  unfolding lstrip rstrip
  strip s = lstrip (rstrip s)

  -- The words of a text, with the letters of a word that has begun.
  unfoldable pub words_from : Text → Text → List Text
  words_from word [] = flush word []
  words_from word (c ∷ cs) =
      let next = words_from [] cs in
      let longer = words_from (word ++ c ∷ []) cs in if is_space c then flush word next else longer

  abbrev pub split : Text → List Text
  split s = words_from [] s

  module _ (lower : Text → Text) where
    unfoldable pub norm_key : Text → Text
    unfolding strip words_from
    norm_key s = join (split (lower (strip s)))
